-- ===== src/Purchases/Money.antt =====
-- The credit of a purchase operation: its ledger lines, the reservation and the release, add up to
-- minus its total exactly while its state holds credit.
use boathouse_cloud.Prelude.{ℕ, ◌≡◌, Bool, true, ◌||◌, some, List, arith, if◌then◌else◌}
use boathouse_cloud.Prelude.Int.{ℤ, pos, neg, ◌+ℤ◌, +ℤ_zero}
use boathouse_cloud.Prelude.Table.{find, find-update}
use boathouse_cloud.Db.{Db, DomainOperation, Line, Ref, ref_eq}
use boathouse_cloud.Db.Ledger.{write_line}
use boathouse_cloud.Db.Credit.{own_sum, own_sum-append}
use boathouse_cloud.Purchases.Reserve.{holds_credit, domain_ref, release_ref}
use boathouse_cloud.Purchases.Finish.{set_purchase}

abbrev pub is_own_ref : ℕ → Ref → Bool
is_own_ref oid r = ref_eq (domain_ref oid) r || ref_eq (release_ref oid) r

-- What the operation's lines add up to.
abbrev pub net : ℕ → List Line → ℤ
net oid = own_sum (is_own_ref oid)

abbrev pub reserved : DomainOperation → ℤ
reserved o = if holds_credit o.state then neg o.total_cents else pos 0

pub record IsReserved (db : Db) : Type 0 where
  pub at :
      (oid : ℕ) (o : DomainOperation)
      → find oid db.purchases ≡ some o
      → net oid db.ledger ≡ reserved o

-- A line of one operation beside a change of its row.
pub move_credit :
    (oid : ℕ) (o : DomainOperation) (f : DomainOperation → DomainOperation) (l : Line) (r : Ref)
    (db : Db)
    → IsReserved db
    → find oid db.purchases ≡ some o
    → l.ref ≡ some r
    → is_own_ref oid r ≡ true
    → r.name ≡ oid
    → reserved o +ℤ l.amount_cents ≡ reserved (f o)
    → IsReserved (set_purchase oid f (write_line l db))
move_credit oid o f l r db h found named own name balanced = record {
  at = λ k v e. ground (
    arith,
    find-update k oid f db.purchases,
    own_sum-append (is_own_ref k) db.ledger l,
    +ℤ_zero (net k db.ledger),
    h.at k v,
    h.at oid o found,
  );
}

-- A change of a row that moves no credit.
pub keep_credit_at :
    (oid : ℕ) (o : DomainOperation) (f : DomainOperation → DomainOperation) (db : Db)
    → find oid db.purchases ≡ some o
    → reserved (f o) ≡ reserved o
    → IsReserved db
    → IsReserved (set_purchase oid f db)
keep_credit_at oid o f db found kept h = record {
  at = λ k v e. ground (arith, find-update k oid f db.purchases, h.at k v, h.at oid o found, kept);
}

pub same_credit :
    {db after : Db}
    → after.purchases ≡ db.purchases
    → ((oid : ℕ) → net oid after.ledger ≡ net oid db.ledger)
    → IsReserved db
    → IsReserved after
same_credit ps ls h = record { at = λ k v e. rw ls (h.at k v (rw ps at e)) }
