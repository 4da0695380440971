-- ===== src/Db/Credit.antt =====
-- Credit that an operation has reserved: the sum of the ledger lines that are its own, and the
-- statement that turns a reservation into a charge.
use boathouse_cloud.Prelude.{
  ℕ, ◌≡◌, refl, Bool, Option, none, some, List, [], ◌∷◌, ◌++◌, arith, if◌then◌else◌,
}
use boathouse_cloud.Prelude.Int.{ℤ, pos, ◌+ℤ◌, int_laws}
use boathouse_cloud.Db.Rows.{Db, Line, Ref, Kind, Memo, ref_eq}
use boathouse_cloud.Db.Ledger.{IsBalanced, line_sum}

-- UPDATE ledger SET kind='charge',memo=? WHERE ref=?
abbrev pub charge_line : Ref → Line → Line
charge_line r l = elim (l.ref) [
  | none ↦ l
  | some s ↦ if ref_eq r s then record l { kind = Kind.charge; memo = Memo.plain } else l
]

abbrev pub charge_lines : Ref → List Line → List Line
charge_lines r [] = []
charge_lines r (l ∷ ls) = charge_line r l ∷ charge_lines r ls

line_sum-charge_lines :
    (w : ℕ) (r : Ref) (ls : List Line) → line_sum w (charge_lines r ls) ≡ line_sum w ls
line_sum-charge_lines w r [] = refl
line_sum-charge_lines w r (l ∷ ls) = ground (arith, line_sum-charge_lines w r ls)

pub charge_lines-IsBalanced :
    (r : Ref) (db : Db)
    → IsBalanced db
    → IsBalanced (record db { ledger = charge_lines r db.ledger })
charge_lines-IsBalanced r db h = record { at = λ w v e. rw line_sum-charge_lines (h.at w v e) }

module _ (own : Ref → Bool) where
  abbrev pub own_amount : Option Ref → ℤ → ℤ
  own_amount none a = pos 0
  own_amount (some r) a = if own r then a else pos 0

  -- What the lines with an own reference add up to.
  abbrev pub own_sum : List Line → ℤ
  own_sum [] = pos 0
  own_sum (l ∷ ls) = own_amount l.ref l.amount_cents +ℤ own_sum ls

  pub own_sum-append :
      (ls : List Line) (l : Line)
      → own_sum (ls ++ l ∷ []) ≡ own_sum ls +ℤ own_amount l.ref l.amount_cents
  own_sum-append [] l = omega int_laws
  own_sum-append (k ∷ ls) l = grind (int_laws, own_sum-append ls l)

  own_amount-charge_line :
      (r : Ref) (l : Line)
      → own_amount (charge_line r l).ref (charge_line r l).amount_cents
        ≡ own_amount l.ref l.amount_cents
  own_amount-charge_line r l = ground arith

  pub own_sum-charge_lines : (r : Ref) (ls : List Line) → own_sum (charge_lines r ls) ≡ own_sum ls
  own_sum-charge_lines r [] = refl
  own_sum-charge_lines r (l ∷ ls) = rw (own_amount-charge_line r l, own_sum-charge_lines r ls)
