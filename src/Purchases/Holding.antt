-- ===== src/Purchases/Holding.antt =====
-- The credit that a purchase holds, and its release.
use boathouse_cloud.Prelude.{
  ℕ, ◌≡◌, refl, ◌∙◌, true, ◌&&◌, Option, none, some, arith, inl, inr, Bool-cases, ◌==◌,
}
use boathouse_cloud.Prelude.Int.{pos, ◌+ℤ◌, int_laws}
use boathouse_cloud.Prelude.Table.{find, find-update}
use boathouse_cloud.Prelude.Exec.{
  Ensures, Ensures-ok, Ensures-bind, after_raise_when, after_fetch, Always, Always-atomically,
}
use boathouse_cloud.Db.{Db, Workspace, DomainOperation, PurchaseState, Ref}
use boathouse_cloud.Db.Ledger.{IsBalanced, write_line, write_line-IsBalanced}
use boathouse_cloud.Db.Credit.{charge_lines, charge_lines-IsBalanced, own_sum-charge_lines}
use boathouse_cloud.Billing.Post.Books.{same_books}
use boathouse_cloud.Purchases.Reserve.{holds_credit, release_ref, belongs}
use boathouse_cloud.Purchases.Finish.{
  set_purchase, to_uncertain, to_failed, release_line, release_state, release_body, release,
}
use boathouse_cloud.Purchases.Money.{
  IsReserved, is_own_ref, reserved, keep_credit_at, move_credit, same_credit,
}

-- Every balance is the sum of its lines, and every purchase has the credit that its state asks for.
pub record IsSound (db : Db) : Type 0 where
  pub books : IsBalanced db
  pub credit : IsReserved db

-- The operation's credit is reserved or spent, at the total of the row that was read.
pub record IsHolding (oid total : ℕ) (db : Db) : Type 0 where
  pub sound : IsSound db
  pub row : DomainOperation
  pub found : find oid db.purchases ≡ some row
  pub held : holds_credit row.state ≡ true
  pub same_total : row.total_cents ≡ total

pub belongs_lem :
    (w domain : ℕ) (x : Option DomainOperation) (o : DomainOperation)
    → belongs w domain x ≡ some o
    → x ≡ some o
belongs_lem w domain none o e = e
belongs_lem w domain (some a) o e = elim (Bool-cases (a.workspace_id == w && a.domain == domain)) [
  | inl y ↦ rw y at e
  | inr n ↦ ground arith
]

pub charge_lines-IsSound :
    (r : Ref) (db : Db) → IsSound db → IsSound (record db { ledger = charge_lines r db.ledger })
charge_lines-IsSound r db h = record {
  books = charge_lines-IsBalanced r db h.books;
  credit = same_credit refl (λ oid. own_sum-charge_lines (is_own_ref oid) r db.ledger) h.credit;
}

-- Nothing that soundness reads is changed.
pub same-IsSound :
    {db after : Db}
    → after.workspaces ≡ db.workspaces
    → after.ledger ≡ db.ledger
    → after.purchases ≡ db.purchases
    → IsSound db
    → IsSound after
same-IsSound ws ls ps h = record {
  books = same_books ws ls h.books;
  credit = same_credit ps (λ oid. rw ls) h.credit;
}

-- A change of the operation's own row that keeps its credit.
pub set_purchase-IsHolding :
    (oid total : ℕ) (f : DomainOperation → DomainOperation) (db : Db)
    → ((o : DomainOperation) → holds_credit o.state ≡ true → holds_credit (f o).state ≡ true)
    → ((o : DomainOperation) → (f o).total_cents ≡ o.total_cents)
    → IsHolding oid total db
    → IsHolding oid total (set_purchase oid f db)
set_purchase-IsHolding oid total f db holds keeps h = record {
  sound = record {
    books = same_books refl refl h.sound.books;
    credit =
        keep_credit_at oid h.row f db h.found
          (ground (arith, holds h.row h.held, keeps h.row, h.held)) h.sound.credit;
  };
  row = f h.row;
  found = ground (arith, find-update oid oid f db.purchases, h.found);
  held = holds h.row h.held;
  same_total = keeps h.row ∙ h.same_total;
}

-- A statement on other tables, or on the ledger's kinds.
pub other-IsHolding :
    {oid total : ℕ} {db after : Db}
    → after.purchases ≡ db.purchases
    → IsSound after
    → IsHolding oid total db
    → IsHolding oid total after
other-IsHolding ps s h = record {
  sound = s;
  row = h.row;
  found = rw ps h.found;
  held = h.held;
  same_total = h.same_total;
}

pub mark_uncertain-IsHolding :
    (oid total : ℕ) (db : Db)
    → IsHolding oid total db
    → IsHolding oid total (set_purchase oid to_uncertain db)
mark_uncertain-IsHolding oid total db h =
    set_purchase-IsHolding oid total to_uncertain db (λ o e. ground arith) (λ o. ground arith) h

pub returned_credit :
    (o : DomainOperation) (total : ℕ)
    → holds_credit o.state ≡ true
    → o.total_cents ≡ total
    → reserved o +ℤ pos total ≡ pos 0
returned_credit o total held e = rw (held, e) (omega int_laws)

-- Returning the credit of an operation that holds it.
module _ (now oid : ℕ) (row : DomainOperation) where
  returned-IsSound :
      (ws : Workspace) (db : Db)
      → IsHolding oid row.total_cents db
      → find row.workspace_id db.workspaces ≡ some ws
      → IsSound (set_purchase oid to_failed (write_line (release_line now oid row ws) db))
  returned-IsSound ws db h there = record {
    books =
        same_books refl refl
          (write_line-IsBalanced (release_line now oid row ws) ws db h.sound.books there refl);
    credit =
        move_credit oid h.row to_failed (release_line now oid row ws) (release_ref oid) db
          h.sound.credit h.found refl (ground arith) refl
          (returned_credit h.row row.total_cents h.held h.same_total);
  }

  released :
      (st : PurchaseState) (db : Db)
      → IsHolding oid row.total_cents db
      → Ensures (λ _ t. IsSound t) (release_state now oid row st db)
  released PurchaseState.failed db h = Ensures-ok _ _ _ h.sound
  released PurchaseState.purchased db h = Ensures-ok _ _ _ h.sound
  released _ db h = after_fetch _ _ _ λ ws there. Ensures-bind _ (
      after_raise_when _ _ _
        λ _. Ensures-ok _ _ _ (Ensures-ok _ _ _ (returned-IsSound ws db h there)))

  pub release-IsSound :
      (db : Db) → IsHolding oid row.total_cents db → Always IsSound (release now oid row db)
  unfolding release release_body
  release-IsSound db h =
      Always-atomically _ h.sound (after_fetch _ _ _ λ current _. released current.state db h)
