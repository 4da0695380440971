-- ===== src/Purchases/Sound.antt =====
-- `purchase` keeps the books and the credit of every purchase.
use boathouse_cloud.Prelude.{
  ℕ, ◌≡◌, refl, Bool, true, false, Option, none, some, arith, if◌then◌else◌,
}
use boathouse_cloud.Prelude.Int.{int_laws}
use boathouse_cloud.Prelude.Table.{find, find-update}
use boathouse_cloud.Prelude.Exec.{
  ◌>>◌, Ensures-always, Always-fetched, pure, Ensures, Ensures-ok, Ensures-err, Ensures-bind,
  Ensures-map, Ensures-atomically, after_modify, Ensures-raise_if, after_raise_if, after_raise_when,
  after_fetch, Always, Always-bind, Always-atomically, Always-raise_if,
}
use boathouse_cloud.Db.{Db, Workspace, DomainOperation, PurchaseState}
use boathouse_cloud.Db.Ledger.{write_line, write_line-IsBalanced}
use boathouse_cloud.Billing.Post.Books.{same_books}
use boathouse_cloud.Purchases.Reserve.{
  holds_credit, domain_ref, operation, begin_processing, mark_processing, check_retry, reserve_line,
  reserve_credit, is_retry, refuse_failed, reserve_open, reserve_state, reserve_body, reserve,
}
use boathouse_cloud.Purchases.Finish.{Answer, buy_reserved, is_purchased, purchase}
use boathouse_cloud.Purchases.Money.{move_credit}
use boathouse_cloud.Purchases.Holding.{IsSound, IsHolding, belongs_lem, set_purchase-IsHolding}
use boathouse_cloud.Purchases.Outcome.{buy_reserved-IsSound}

-- A row that was read twice from the same store.
same_row :
    {oid total : ℕ} {db : Db} (o : DomainOperation)
    → find oid db.purchases ≡ some o
    → IsHolding oid total db
    → IsHolding oid o.total_cents db
same_row o e h = record {
  sound = h.sound;
  row = h.row;
  found = h.found;
  held = h.held;
  same_total = ground (arith, h.found, e);
}

module _ (now oid : ℕ) (row : DomainOperation) (db : Db) (sound : IsSound db)
    (found : find oid db.purchases ≡ some row) where
  holding : holds_credit row.state ≡ true → IsHolding oid row.total_cents db
  holding h = record { sound = sound; row = row; found = found; held = h; same_total = refl }

  abbrev Marked : Db → Type 0
  Marked t = IsHolding oid row.total_cents (mark_processing now oid t)

  retry-Marked : holds_credit row.state ≡ true → Ensures (λ _ t. Marked t) (check_retry now row db)
  retry-Marked h = after_raise_if _ _ _ λ _. Ensures-raise_if _ _ _ λ _.
      set_purchase-IsHolding oid row.total_cents (begin_processing now) db (λ o e. refl) (λ o. refl)
        (holding h)

  reserved-Marked :
      (ws : Workspace)
      → row.state ≡ PurchaseState.quoted
      → find row.workspace_id db.workspaces ≡ some ws
      → Marked (write_line (reserve_line now oid row ws) db)
  reserved-Marked ws quoted there = record {
    sound = record {
      books = same_books refl refl (
          write_line-IsBalanced (reserve_line now oid row ws) ws db sound.books there
            (omega int_laws));
      credit =
          move_credit oid row (begin_processing now) (reserve_line now oid row ws) (domain_ref oid)
            db sound.credit found refl (ground arith) refl (rw quoted (omega int_laws));
    };
    row = begin_processing now row;
    found = ground (arith, find-update oid oid (begin_processing now) db.purchases, found);
    held = refl;
    same_total = refl;
  }

  fresh-Marked :
      row.state ≡ PurchaseState.quoted → Ensures (λ _ t. Marked t) (reserve_credit now oid row db)
  unfolding reserve_credit
  fresh-Marked quoted = after_raise_if _ _ _ λ _. after_raise_when _ _ _ λ _.
      after_raise_when _ _ _ λ _. after_raise_when _ _ _ λ _. after_fetch _ _ _ λ ws there.
        after_raise_if _ _ _
          λ _. after_raise_when _ _ _ λ _. Ensures-ok _ _ _ (reserved-Marked ws quoted there)

  -- The two branches, on the state that both they and the test `failed` before them read.
  stage :
      (st : PurchaseState)
      → row.state ≡ st
      → is_purchased st ≡ false
      → Ensures
          (λ _ t.
            Ensures
              (λ _ u. Marked u)
              ((if is_retry st then check_retry now row else reserve_credit now oid row) t))
          (refuse_failed st db)
  stage PurchaseState.quoted e n = Ensures-ok _ _ _ (fresh-Marked e)
  stage PurchaseState.processing e n = Ensures-ok _ _ _ (retry-Marked (rw e refl))
  stage PurchaseState.uncertain e n = Ensures-ok _ _ _ (retry-Marked (rw e refl))
  stage PurchaseState.purchased e n = cc
  stage PurchaseState.failed e n = Ensures-err _ _ _

module _ (under : ℕ → ℕ → Bool) (fingerprint : ℕ) (sandbox : Bool) (now w oid domain : ℕ) where
  abbrev Kept : (DomainOperation × Bool) → Db → Type 0
  Kept p t = IsHolding oid (p.0).total_cents t

  module _ (row : DomainOperation) (db : Db) (sound : IsSound db)
      (found : find oid db.purchases ≡ some row) where
    open-Kept :
        is_purchased row.state ≡ false
        → Ensures Kept (reserve_open under fingerprint sandbox now w oid domain row db)
    unfolding reserve_open
    open-Kept n = after_raise_if _ _ _ λ _. Ensures-bind _ (
        Ensures-map
          (λ _ t h. Ensures-bind _ (
            Ensures-map
              (λ _ u k. after_modify _ _ (
                after_fetch _ _ _ λ updated e.
                  Ensures-ok _ _ _ (same_row updated (belongs_lem w domain _ updated e) k)))
              h))
          (stage now oid row db sound found row.state refl n))

    state-Kept :
        (st : PurchaseState)
        → row.state ≡ st
        → Ensures Kept (reserve_state under fingerprint sandbox now w oid domain row st db)
    state-Kept PurchaseState.purchased e =
        Ensures-ok _ _ _ (holding now oid row db sound found (rw e refl))
    state-Kept PurchaseState.quoted e = open-Kept (rw e refl)
    state-Kept PurchaseState.processing e = open-Kept (rw e refl)
    state-Kept PurchaseState.uncertain e = open-Kept (rw e refl)
    state-Kept PurchaseState.failed e = open-Kept (rw e refl)

  body-Kept :
      (maximum : ℕ) (db : Db)
      → IsSound db
      → Ensures Kept (reserve_body under fingerprint sandbox now w oid domain maximum db)
  unfolding reserve_body
  body-Kept maximum db h = after_fetch _ _ _ λ row e. after_raise_when _ _ _ λ _.
      after_raise_if _ _ _ λ _. state-Kept row db h (belongs_lem w domain _ row e) row.state refl

  -- What `reserve` returns is the operation's row, and it holds its credit.
  pub reserve-IsHolding :
      (maximum : Option ℕ) (db : Db)
      → IsSound db
      → Ensures Kept (reserve under fingerprint sandbox now w oid domain maximum db)
  unfolding reserve
  reserve-IsHolding none db h = Ensures-err _ _ _
  reserve-IsHolding (some maximum) db h =
      after_raise_if _ _ _ λ _. Ensures-atomically _ (body-Kept maximum db h)

  reserve-IsSound :
      (maximum : Option ℕ) (db : Db)
      → IsSound db
      → Always IsSound (reserve under fingerprint sandbox now w oid domain maximum db)
  unfolding reserve
  reserve-IsSound none db h = record { at_end = h }
  reserve-IsSound (some maximum) db h =
      Always-raise_if _ _ _ h
        λ _. Always-atomically _ h (Ensures-map (λ p t k. k.sound) (body-Kept maximum db h))

  bought-IsSound :
      (p : DomainOperation × Bool) (a : Answer) (t : Db)
      → Kept p t
      → Always IsSound (
          (if is_purchased (p.0).state
              then pure p.0
              else do buy_reserved under now oid p.0 p.1 a; operation w oid domain)
            t)
  bought-IsSound (row, retrying) a t k = go (is_purchased row.state)
    where
      bought : Always IsSound (buy_reserved under now oid row retrying a t)
      bought = buy_reserved-IsSound under now oid row retrying a t k

      go :
          (b : Bool)
          → Always IsSound (
              (if b
                  then pure row
                  else do buy_reserved under now oid row retrying a; operation w oid domain)
                t)
      go true = record { at_end = k.sound }
      go false =
          Always-bind _ _ bought
            (Ensures-map (λ _ u s. Always-fetched _ _ _ s) (Ensures-always IsSound _ bought.at_end))

  -- A purchase, whatever the registrar answers and whether it returns or raises, keeps every balance
  -- equal to the sum of its ledger lines, and keeps for every purchase the credit of its state: the
  -- lines of its reservation and its release add up to minus its total while it is processing,
  -- uncertain or purchased, and to nothing while it is quoted or failed.
  pub purchase-IsSound :
      (maximum : Option ℕ) (a : Answer) (db : Db)
      → IsSound db
      → Always IsSound (purchase under fingerprint sandbox now w oid domain maximum a db)
  unfolding purchase
  purchase-IsSound maximum a db h =
      Always-bind _ _ (reserve-IsSound maximum db h)
        (Ensures-map (λ p t k. bought-IsSound p a t k) (reserve-IsHolding maximum db h))
