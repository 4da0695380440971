-- ===== src/Referrals/Payouts/Marks.antt =====
-- A transfer is recorded once, and moves nothing but what was prepared.
use boathouse_cloud.Prelude.{
  ℕ, ◌+◌, ◌≡◌, refl, false, ◌&&◌, Option, none, some, arith, ◌==◌, ==_refl, same-eq, ◌∙◌,
}
use boathouse_cloud.Prelude.Table.{find, find-update, any_row-update, sum_rows-update_any}
use boathouse_cloud.Prelude.Exec.{
  ok, atomically, ◌>>=◌, Ensures, Ensures-ok, Ensures-err, Ensures-atomically, after_modify,
  after_raise_if, after_raise_when, after_fetch, Ensures-map,
}
use boathouse_cloud.Db.{Db, Payout, PayoutStatus}
use boathouse_cloud.Referrals.Payouts.{
  is_paid, is_prepared, payout_sum, has_transfer, to_paid, record_transfer, refuses, mark_body,
  mark_paid,
}

module _ (email transfer payout_id cents : ℕ) where
  -- The payout is recorded as paid by this transfer.
  record IsRecorded (t : Db) : Type 0 where
    row : Payout
    found : find payout_id t.payouts ≡ some row
    accepted : refuses email cents row ≡ false
    free : has_transfer payout_id transfer t.payouts ≡ false
    paid_now : row.status ≡ PayoutStatus.paid
    by_transfer : row.payout_ref ≡ some transfer

  again : (t : Db) → IsRecorded t → mark_body email transfer payout_id cents t ≡ ok cents t
  unfolding mark_body ◌>>=◌
  again t h = rw (h.found, h.accepted, h.free, h.paid_now, h.by_transfer, ==_refl transfer) refl

  IsRecorded-by :
      (row : Payout) (st : PayoutStatus) (db : Db)
      → row.status ≡ st
      → find payout_id db.payouts ≡ some row
      → refuses email cents row ≡ false
      → has_transfer payout_id transfer db.payouts ≡ false
      → Ensures
          (λ c t. (c ≡ cents) × IsRecorded t)
          (record_transfer payout_id transfer cents row st db)
  IsRecorded-by row PayoutStatus.paid db e found accepted free = after_raise_if _ _ _ λ same_ref.
      Ensures-ok _ _ _ (
        refl,
        record {
          row = row;
          found = found;
          accepted = accepted;
          free = free;
          paid_now = e;
          by_transfer = same-eq row.payout_ref (some transfer) (ground arith);
        },
      )
  IsRecorded-by row _ db e found accepted free = after_modify _ _ (
      Ensures-ok _ _ _ (
        refl,
        record {
          row = to_paid transfer row;
          found =
              ground (arith, find-update payout_id payout_id (to_paid transfer) db.payouts, found);
          accepted = ground arith;
          free =
              any_row-update _ payout_id (to_paid transfer) db.payouts (λ v. ground arith) ∙ free;
          paid_now = refl;
          by_transfer = refl;
        },
      ))

  body-IsRecorded :
      (db : Db)
      → Ensures (λ c t. (c ≡ cents) × IsRecorded t) (mark_body email transfer payout_id cents db)
  unfolding mark_body
  body-IsRecorded db = after_fetch _ _ _ λ row found. after_raise_if _ _ _ λ accepted.
      after_raise_when _ _ _ λ free. IsRecorded-by row row.status db refl found accepted free

  body_twice :
      (db : Db)
      → Ensures
          (λ c t. atomically (mark_body email transfer payout_id cents) t ≡ ok c t)
          (mark_body email transfer payout_id cents db)
  unfolding atomically
  body_twice db = Ensures-map (λ c t h. rw (again t h.1, h.0) refl) (body-IsRecorded db)

-- Recording a transfer again, with the same arguments, returns the same amount and changes nothing.
pub mark_paid_twice :
    (email : ℕ) (transfer payout_id cents : Option ℕ) (db : Db)
    → Ensures
        (λ c t. mark_paid email transfer payout_id cents t ≡ ok c t)
        (mark_paid email transfer payout_id cents db)
unfolding mark_paid
mark_paid_twice email (some r) (some i) (some n) db =
    Ensures-atomically _ (body_twice email r i n db)
mark_paid_twice email none i n db = Ensures-err _ _ _
mark_paid_twice email (some r) none n db = Ensures-err _ _ _
mark_paid_twice email (some r) (some i) none db = Ensures-err _ _ _

-- What is paid out and what is prepared for a partner, together.
abbrev pub committed : ℕ → Db → ℕ
committed partner db =
    payout_sum is_paid partner db.payouts + payout_sum is_prepared partner db.payouts

module _ (partner email transfer payout_id cents : ℕ) where
  transfer-committed :
      (row : Payout) (st : PayoutStatus) (db : Db)
      → row.status ≡ st
      → find payout_id db.payouts ≡ some row
      → refuses email cents row ≡ false
      → Ensures
          (λ _ t. committed partner t ≡ committed partner db)
          (record_transfer payout_id transfer cents row st db)
  transfer-committed row PayoutStatus.paid db e found accepted =
      after_raise_if _ _ _ λ _. Ensures-ok _ _ _ refl
  transfer-committed row PayoutStatus.cancelled db e found accepted =
      after_modify _ _ (Ensures-ok _ _ _ (ground arith))
  transfer-committed row PayoutStatus.prepared db e found accepted = after_modify _ _ (
      Ensures-ok _ _ _ (
        ground (
          arith,
          e,
          sum_rows-update_any (λ i p. partner == p.email && is_paid p.status) (λ p. p.cents)
              payout_id (to_paid transfer) row db.payouts found,
          sum_rows-update_any (λ i p. partner == p.email && is_prepared p.status) (λ p. p.cents)
              payout_id (to_paid transfer) row db.payouts found,
        )))

  mark_body-committed :
      (db : Db)
      → Ensures
          (λ _ t. committed partner t ≡ committed partner db)
          (mark_body email transfer payout_id cents db)
  unfolding mark_body
  mark_body-committed db = after_fetch _ _ _ λ row found. after_raise_if _ _ _ λ accepted.
      after_raise_when _ _ _ λ _. transfer-committed row row.status db refl found accepted

-- Recording a transfer leaves what is paid and prepared together, for every partner, as it was.
pub mark_paid-committed :
    (partner email : ℕ) (transfer payout_id cents : Option ℕ) (db : Db)
    → Ensures
        (λ _ t. committed partner t ≡ committed partner db)
        (mark_paid email transfer payout_id cents db)
unfolding mark_paid
mark_paid-committed partner email (some r) (some i) (some n) db =
    Ensures-atomically _ (mark_body-committed partner email r i n db)
mark_paid-committed partner email none i n db = Ensures-err _ _ _
mark_paid-committed partner email (some r) none n db = Ensures-err _ _ _
mark_paid-committed partner email (some r) (some i) none db = Ensures-err _ _ _
