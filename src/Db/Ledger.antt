-- ===== src/Db/Ledger.antt =====
-- The statements that move money. Each caller pairs `UPDATE workspaces SET balance_cents` with
-- `INSERT INTO ledger` in one transaction; the books are in order when every balance is the sum of
-- its lines.
use boathouse_cloud.Prelude.{
  ℕ, ◌≡◌, refl, Bool, true, false, ◌||◌, Option, none, some, List, [], ◌∷◌, ◌++◌, arith, is_some,
  ◌==◌, if◌then◌else◌,
}
use boathouse_cloud.Prelude.Int.{ℤ, pos, ◌+ℤ◌, +ℤ_zero, int_laws}
use boathouse_cloud.Prelude.Table.{find, update, find-update}
use boathouse_cloud.Db.Rows.{Db, Line, Ref, Workspace, ref_eq}

-- SELECT 1 FROM ledger WHERE ref=?
abbrev pub has_ref : Ref → List Line → Bool
has_ref r [] = false
has_ref r (l ∷ ls) = elim (l.ref) [ none ↦ has_ref r ls | some s ↦ ref_eq r s || has_ref r ls ]

-- SELECT * FROM ledger WHERE ref=?
abbrev pub find_ref : Ref → List Line → Option Line
find_ref r [] = none
find_ref r (l ∷ ls) = elim (l.ref) [
  | none ↦ find_ref r ls
  | some s ↦ if ref_eq r s then some l else find_ref r ls
]

pub is_some-find_ref : (r : Ref) (ls : List Line) → is_some (find_ref r ls) ≡ has_ref r ls
is_some-find_ref r [] = refl
is_some-find_ref r (l ∷ ls) = ground (arith, is_some-find_ref r ls)

-- the UNIQUE constraint on `ledger.ref`; NULL is never a duplicate
abbrev pub clashes : Option Ref → List Line → Bool
clashes none ls = false
clashes (some r) ls = has_ref r ls

abbrev pub set_balance : ℤ → Workspace → Workspace
set_balance b ws = record ws { balance_cents = b }

-- UPDATE workspaces SET balance_cents=? WHERE id=?; INSERT INTO ledger
abbrev pub write_line : Line → Db → Db
write_line l db = record db {
  workspaces = update l.workspace_id (set_balance l.balance_after) db.workspaces;
  ledger = db.ledger ++ l ∷ [];
}

-- SUM(amount_cents) over a workspace's lines
abbrev pub line_sum : ℕ → List Line → ℤ
line_sum w [] = pos 0
line_sum w (l ∷ ls) = (if w == l.workspace_id then l.amount_cents else pos 0) +ℤ line_sum w ls

pub line_sum-append :
    (w : ℕ) (ls : List Line) (l : Line)
    → line_sum w (ls ++ l ∷ [])
      ≡ line_sum w ls +ℤ (if w == l.workspace_id then l.amount_cents else pos 0)
line_sum-append w [] l = omega int_laws
line_sum-append w (k ∷ ls) l = grind (int_laws, line_sum-append w ls l)

pub has_ref-append :
    (r : Ref) (l : Line) (ls : List Line) → l.ref ≡ some r → has_ref r (ls ++ l ∷ []) ≡ true
has_ref-append r l [] e = rw (e, has_ref) (ground arith)
has_ref-append r l (k ∷ ls) e = ground (arith, has_ref-append r l ls e)

-- After an INSERT its reference is taken.
pub clashes-append :
    (o : Option Ref) (l : Line) (ls : List Line) → l.ref ≡ o → clashes o (ls ++ l ∷ []) ≡ is_some o
clashes-append none l ls e = refl
clashes-append (some r) l ls e = has_ref-append r l ls e

-- Every workspace's balance is the sum of its ledger lines.
pub record IsBalanced (db : Db) : Type 0 where
  pub at :
      (w : ℕ) (ws : Workspace)
      → find w db.workspaces ≡ some ws
      → ws.balance_cents ≡ line_sum w db.ledger

-- A line that carries the balance after its amount keeps the books in order.
pub write_line-IsBalanced :
    (l : Line) (ws : Workspace) (db : Db)
    → IsBalanced db
    → find l.workspace_id db.workspaces ≡ some ws
    → l.balance_after ≡ ws.balance_cents +ℤ l.amount_cents
    → IsBalanced (write_line l db)
write_line-IsBalanced l ws db h found moved = record {
  at = λ w v e. ground (
    arith,
    find-update w l.workspace_id (set_balance l.balance_after) db.workspaces,
    line_sum-append w db.ledger l,
    +ℤ_zero (line_sum w db.ledger),
    h.at w v,
    h.at l.workspace_id ws found,
  );
}

-- A change of a workspace's other columns keeps the books.
pub update-IsBalanced :
    (k : ℕ) (f : Workspace → Workspace) (db : Db)
    → ((ws : Workspace) → (f ws).balance_cents ≡ ws.balance_cents)
    → IsBalanced db
    → IsBalanced (record db { workspaces = update k f db.workspaces })
update-IsBalanced k f db same_balance h = record {
  at = λ w v e. go w v (find w db.workspaces) refl e;
}
  where
    go :
        (w : ℕ) (v : Workspace) (o : Option Workspace)
        → find w db.workspaces ≡ o
        → find w (update k f db.workspaces) ≡ some v
        → v.balance_cents ≡ line_sum w db.ledger
    go w v none e e' = ground (arith, find-update w k f db.workspaces)
    go w v (some ws) e e' =
        ground (arith, find-update w k f db.workspaces, h.at w ws e, same_balance ws)
