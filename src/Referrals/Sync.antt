-- ===== src/Referrals/Sync.antt =====
-- `sync` of control/app/referrals.py: a partner's earnings follow the paid usage of each referred
-- workspace, in whole cents, with tenths carried.
pub mod Exact
pub mod Based
pub mod Frame
use boathouse_cloud.Prelude.{
  ℕ, ◌+◌, ◌/◌, Bool, true, false, ◌&&◌, ◌||◌, Option, none, some, List, [], ◌∷◌, ◌++◌, ◌==◌,
  if◌then◌else◌,
}
use boathouse_cloud.Prelude.Int.{ℤ, pos, negsuc, ◌+ℤ◌, ◌-ℤ◌}
use boathouse_cloud.Prelude.Table.{Table, find, update, sum_rows}
use boathouse_cloud.Prelude.Exec.{ok, err}
use boathouse_cloud.Db.{Db, Revenue, Earning, Workspace, Error, Action}
use boathouse_cloud.Referrals.Usage.{paid_usage}

-- Python's `n // 10`, which rounds down
abbrev pub tenth : ℤ → ℤ
tenth (pos n) = pos (n / 10)
tenth (negsuc n) = negsuc (n / 10)

abbrev pub refers : ℕ → ℕ → Revenue → Bool
refers email w r = email == r.referrer_email

-- SELECT SUM(basis_cents) FROM referral_revenue WHERE referrer_email=?
abbrev pub basis_sum : ℕ → Table Revenue → ℕ
basis_sum email = sum_rows (refers email) (λ r. r.basis_cents)

-- SUM(cents) FROM referral_earnings WHERE referrer_email=?
abbrev pub earned_sum : ℕ → List Earning → ℤ
earned_sum email [] = pos 0
earned_sum email (e ∷ es) =
    (if email == e.referrer_email then e.cents else pos 0) +ℤ earned_sum email es

-- INSERT OR IGNORE INTO referral_revenue
abbrev pub with_revenue : ℕ → ℕ → Db → Db
with_revenue w email db = elim (find w db.revenue) [
  | some r ↦ db
  | none ↦ record db {
    revenue =
        db.revenue ++ (w, record { referrer_email = email; basis_cents = 0; revision = 0 }) ∷ [];
  }
]

-- the UNIQUE constraint on `ledger_ref`, `partner:{workspace}:{revision}`
abbrev pub has_earning : ℕ → ℕ → List Earning → Bool
has_earning w revision [] = false
has_earning w revision (e ∷ es) =
    (e.workspace_id == w && e.revision == revision) || has_earning w revision es

abbrev pub is_zero : ℤ → Bool
is_zero (pos n) = n == 0
is_zero (negsuc n) = false

-- The statements after `basis` is known: `old` is the workspace's row of `referral_revenue`.
pub rebase : ℕ → ℕ → Revenue → ℕ → Action ℤ
rebase w email old basis db =
    let total = basis_sum email db.revenue in
    let delta = tenth (pos total -ℤ pos old.basis_cents +ℤ pos basis) -ℤ pos (total / 10) in
    let revision = old.revision + 1 in
    let moved = record db {
      revenue = update w (λ r. record r { basis_cents = basis; revision = revision }) db.revenue;
    } in
    if is_zero delta
    then ok delta moved
    else if has_earning w revision db.earnings
    then err Error.crash moved
    else ok delta (record moved {
      earnings =
          db.earnings
          ++ record {
            referrer_email = email;
            workspace_id = w;
            cents = delta;
            revision = revision;
            legacy_paid = false;
          }
            ∷ [];
    })

abbrev pub sync_row : ℕ → ℕ → Option Revenue → Action ℤ
sync_row w email none db = err Error.crash db
sync_row w email (some old) db =
    let basis = paid_usage db w in
    if old.basis_cents == basis then ok (pos 0) db else rebase w email old basis db

abbrev pub sync_partner : ℕ → Option ℕ → Action ℤ
sync_partner w none db = ok (pos 0) db
sync_partner w (some email) db =
    let there = with_revenue w email db in sync_row w email (find w there.revenue) there

abbrev pub referrer_of : Option Workspace → Option ℕ
referrer_of none = none
referrer_of (some ws) = ws.referred_by

-- `if not ws or not ws['referred_by']: return 0`
unfoldable pub sync : ℕ → Action ℤ
unfolding rebase
sync w db = sync_partner w (referrer_of (find w db.workspaces)) db
