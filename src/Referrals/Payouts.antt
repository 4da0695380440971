-- ===== src/Referrals/Payouts.antt =====
-- Partner payouts in control/app/referrals.py: `_totals`, the part of `prepare_payout` after the
-- reconciliation and the summary, `mark_paid` and `cancel_payout`. They record transfers that are
-- made by hand. `db.audit` is left out.
pub mod Cover
pub mod Marks
use boathouse_cloud.Prelude.{
  ℕ, ◌+◌, Bool, true, false, not, ◌&&◌, ◌||◌, Option, none, some, List, [], ◌∷◌, ◌++◌, ◌==◌, same,
  ltb, leb, is_some, if◌then◌else◌,
}
use boathouse_cloud.Prelude.Int.{ℤ, pos, negsuc, ◌+ℤ◌, ◌-ℤ◌, ltb_ℤ, nonneg}
use boathouse_cloud.Prelude.Table.{Table, find, update, any_row, first_row, sum_rows}
use boathouse_cloud.Prelude.Exec.{
  ok, err, pure, raise, raise_if, raise_when, modify, fetch, gets, atomically, ◌>>=◌, ◌>>◌,
}
use boathouse_cloud.Referrals.Sync.{earned_sum}
use boathouse_cloud.Db.{Db, Earning, Payout, PayoutStatus, Code, Error, Action}

abbrev pub min_payout_cents : ℕ
min_payout_cents = 1000

abbrev pub is_paid : PayoutStatus → Bool
is_paid PayoutStatus.paid = true
is_paid _ = false

abbrev pub is_prepared : PayoutStatus → Bool
is_prepared PayoutStatus.prepared = true
is_prepared _ = false

abbrev pub is_cancelled : PayoutStatus → Bool
is_cancelled PayoutStatus.cancelled = true
is_cancelled _ = false

-- SELECT SUM(cents) FROM referral_earnings WHERE referrer_email=? AND paid_at IS NOT NULL
abbrev pub legacy_paid : ℕ → List Earning → ℤ
legacy_paid email [] = pos 0
legacy_paid email (e ∷ es) =
    (if email == e.referrer_email && e.legacy_paid then e.cents else pos 0) +ℤ legacy_paid email es

abbrev pub payout_sum : (PayoutStatus → Bool) → ℕ → Table Payout → ℕ
payout_sum test email = sum_rows (λ i p. email == p.email && test p.status) (λ p. p.cents)

pub record Totals : Type 0 where
  pub earned_cents : ℤ
  pub paid_cents : ℤ
  pub unpaid_cents : ℤ
  pub prepared_cents : ℕ
  pub available_cents : ℕ

-- `_totals`
abbrev pub totals : ℕ → Db → Totals
totals email db =
    let all = earned_sum email db.earnings in
    let paid = legacy_paid email db.earnings +ℤ pos (payout_sum is_paid email db.payouts) in
    let prepared = payout_sum is_prepared email db.payouts in
    record {
      earned_cents = all;
      paid_cents = paid;
      unpaid_cents = all -ℤ paid;
      prepared_cents = prepared;
      available_cents = nonneg (all -ℤ paid -ℤ pos prepared);
    }

abbrev pub is_pending : ℕ → ℕ → Payout → Bool
is_pending email i p = email == p.email && is_prepared p.status

abbrev pub new_payout : ℕ → ℕ → Payout
new_payout email cents = record {
  email = email;
  cents = cents;
  status = PayoutStatus.prepared;
  payout_ref = none;
}

-- INSERT INTO referral_payouts
abbrev pub insert_payout : ℕ → ℕ → ℕ → Action Payout
insert_payout ident email cents = do
  raise_when (λ db. is_some (find ident db.payouts)) Error.crash
  modify (λ db. record db { payouts = db.payouts ++ (ident, new_payout email cents) ∷ [] })
  pure (new_payout email cents)

-- A payout that is prepared already is returned, unless the earnings fell below it.
abbrev pub prepare_by : ℕ → ℕ → Totals → Option (ℕ × Payout) → Action Payout
prepare_by ident email t (some (i, old)) = do
  raise_if (ltb_ℤ t.unpaid_cents (pos old.cents)) (Error.referral Code.payout_shrank)
  pure old
prepare_by ident email t none = do
  raise_if (ltb t.available_cents min_payout_cents) (Error.referral Code.below_minimum)
  insert_payout ident email t.available_cents

pub prepare_body : ℕ → ℕ → Action Payout
prepare_body ident email db =
    prepare_by ident email (totals email db) (first_row (is_pending email) db.payouts) db

-- The transaction of `prepare_payout`; `ident` is the new identifier that it draws.
pub prepare_payout : ℕ → ℕ → Action Payout
unfolding prepare_body
prepare_payout ident email = atomically (prepare_body ident email)

abbrev pub has_transfer : ℕ → ℕ → Table Payout → Bool
has_transfer payout_id transfer =
    any_row (λ i p. not (i == payout_id) && same p.payout_ref (some transfer))

abbrev pub set_payout : ℕ → (Payout → Payout) → Db → Db
set_payout payout_id f db = record db { payouts = update payout_id f db.payouts }

abbrev pub to_paid : ℕ → Payout → Payout
to_paid transfer p = record p { status = PayoutStatus.paid; payout_ref = some transfer }

abbrev pub record_transfer : ℕ → ℕ → ℕ → Payout → PayoutStatus → Action ℕ
record_transfer payout_id transfer cents row PayoutStatus.paid = do
  raise_if (not (same row.payout_ref (some transfer))) (Error.referral Code.reference_differs)
  pure cents
record_transfer payout_id transfer cents row _ = do
  modify (set_payout payout_id (to_paid transfer))
  pure cents

abbrev pub refuses : ℕ → ℕ → Payout → Bool
refuses email cents row =
    not (row.email == email) || (not (row.cents == cents) || is_cancelled row.status)

pub mark_body : ℕ → ℕ → ℕ → ℕ → Action ℕ
mark_body email transfer payout_id cents = do
  row ← fetch (λ db. find payout_id db.payouts) (Error.referral Code.payout_mismatch)
  raise_if (refuses email cents row) (Error.referral Code.payout_mismatch)
  raise_when (λ db. has_transfer payout_id transfer db.payouts)
      (Error.referral Code.reference_taken)
  record_transfer payout_id transfer cents row row.status

-- `mark_paid`; an argument is `none` where the first test refuses it: an identifier of another
-- length, an amount that is not positive, a reference of another length.
pub mark_paid : ℕ → Option ℕ → Option ℕ → Option ℕ → Action ℕ
unfolding mark_body
mark_paid email (some transfer) (some payout_id) (some cents) =
    atomically (mark_body email transfer payout_id cents)
mark_paid email _ _ _ = raise (Error.referral Code.payout_mismatch)

abbrev pub to_cancelled : Payout → Payout
to_cancelled p = record p { status = PayoutStatus.cancelled }

pub cancel_body : ℕ → Action (Unit {0})
cancel_body payout_id = do
  row ← fetch (λ db. find payout_id db.payouts) (Error.referral Code.not_cancellable)
  raise_if (is_paid row.status) (Error.referral Code.not_cancellable)
  modify (set_payout payout_id to_cancelled)

-- `cancel_payout`
pub cancel_payout : ℕ → Action (Unit {0})
unfolding cancel_body
cancel_payout payout_id = atomically (cancel_body payout_id)
