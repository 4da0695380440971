-- ===== src/Prelude/Table.antt =====
-- A SQL table with a primary key. Identifiers are only compared, so they are numbers; rows stand
-- in the order in which they were inserted.
pub mod Keys
pub mod Where
use boathouse_cloud.Prelude.Tests.{◌==◌, if◌then◌else◌}
use Prim.Native.Nat.{ℕ, ◌+◌}
use mathlib.Core.Path.{◌≡◌}
use mathlib.Core.Bool.{Bool, true, false, ◌||◌}
use mathlib.Core.Option.{Option, none, some}
use mathlib.Core.List.{List, [], ◌∷◌, ◌++◌}
use native.Mathlib.Omega.{arith}

abbrev pub Table {ℓ} : Type ℓ → Type ℓ
Table V = List (ℕ × V)

module _ {ℓ} {V : Type ℓ} where
  -- SELECT * WHERE id=k
  abbrev pub find : ℕ → Table V → Option V
  find k [] = none
  find k ((j, v) ∷ t) = if k == j then some v else find k t

  -- UPDATE SET f WHERE id=k: the key is primary, so at most one row has it
  abbrev pub update : ℕ → (V → V) → Table V → Table V
  update k f [] = []
  update k f ((j, v) ∷ t) = if k == j then (j, f v) ∷ t else (j, v) ∷ update k f t

  -- SELECT 1 WHERE p
  abbrev pub any_row : (ℕ → V → Bool) → Table V → Bool
  any_row p [] = false
  any_row p ((j, v) ∷ t) = p j v || any_row p t

  -- SELECT * WHERE p ORDER BY rowid LIMIT 1
  abbrev pub first_row : (ℕ → V → Bool) → Table V → Option (ℕ × V)
  first_row p [] = none
  first_row p ((j, v) ∷ t) = if p j v then some (j, v) else first_row p t

  -- SELECT * WHERE p ORDER BY rowid DESC LIMIT 1
  abbrev pub last_row : (ℕ → V → Bool) → Table V → Option (ℕ × V)
  last_row p [] = none
  last_row p ((j, v) ∷ t) = elim (last_row p t) [
    | some r ↦ some r
    | none ↦ if p j v then some (j, v) else none
  ]

  -- SELECT SUM(g) WHERE p
  abbrev pub sum_rows : (ℕ → V → Bool) → (V → ℕ) → Table V → ℕ
  sum_rows p g [] = 0
  sum_rows p g ((j, v) ∷ t) = (if p j v then g v else 0) + sum_rows p g t

  abbrev pub mapped : (V → V) → Option V → Option V
  mapped f none = none
  mapped f (some v) = some (f v)

  abbrev pub first_of_two : Option V → Option V → Option V
  first_of_two none o = o
  first_of_two (some v) o = some v

  pub find-update :
      (j k : ℕ) (f : V → V) (t : Table V)
      → find j (update k f t) ≡ (if j == k then mapped f (find j t) else find j t)
  find-update j k f [] = ground arith
  find-update j k f ((i, v) ∷ t) = ground (arith, find-update j k f t)

  pub find-append :
      (j k : ℕ) (v : V) (t : Table V)
      → find j (t ++ (k, v) ∷ []) ≡ first_of_two (find j t) (if j == k then some v else none)
  find-append j k v [] = ground arith
  find-append j k v ((i, w) ∷ t) = ground (arith, find-append j k v t)

  pub sum_rows-update :
      (p : ℕ → V → Bool) (g : V → ℕ) (k : ℕ) (f : V → V) (v : V) (t : Table V)
      → find k t ≡ some v
      → p k v ≡ true
      → p k (f v) ≡ true
      → sum_rows p g (update k f t) + g v ≡ sum_rows p g t + g (f v)
  sum_rows-update p g k f v [] e pv pf = ground arith
  sum_rows-update p g k f v ((j, w) ∷ t) e pv pf = ground (arith, sum_rows-update p g k f v t)

  pub sum_rows-update_other :
      (p : ℕ → V → Bool) (g : V → ℕ) (k : ℕ) (f : V → V) (v : V) (t : Table V)
      → find k t ≡ some v
      → p k v ≡ false
      → p k (f v) ≡ false
      → sum_rows p g (update k f t) ≡ sum_rows p g t
  sum_rows-update_other p g k f v [] e pv pf = ground arith
  sum_rows-update_other p g k f v ((j, w) ∷ t) e pv pf =
      ground (arith, sum_rows-update_other p g k f v t)

  pub sum_rows-append :
      (p : ℕ → V → Bool) (g : V → ℕ) (k : ℕ) (v : V) (t : Table V)
      → sum_rows p g (t ++ (k, v) ∷ []) ≡ sum_rows p g t + (if p k v then g v else 0)
  sum_rows-append p g k v [] = ground arith
  sum_rows-append p g k v ((j, w) ∷ t) = ground (arith, sum_rows-append p g k v t)

  pub any_row-append :
      (p : ℕ → V → Bool) (k : ℕ) (v : V) (t : Table V)
      → any_row p (t ++ (k, v) ∷ []) ≡ any_row p t || p k v
  any_row-append p k v [] = ground arith
  any_row-append p k v ((j, w) ∷ t) = ground (arith, any_row-append p k v t)

  pub sum_rows-update_any :
      (p : ℕ → V → Bool) (g : V → ℕ) (k : ℕ) (f : V → V) (v : V) (t : Table V)
      → find k t ≡ some v
      → sum_rows p g (update k f t) + (if p k v then g v else 0)
        ≡ sum_rows p g t + (if p k (f v) then g (f v) else 0)
  sum_rows-update_any p g k f v [] e = ground arith
  sum_rows-update_any p g k f v ((j, w) ∷ t) e = ground (arith, sum_rows-update_any p g k f v t)

  -- a test that the changed row does not move
  pub any_row-update :
      (p : ℕ → V → Bool) (k : ℕ) (f : V → V) (t : Table V)
      → ((v : V) → p k (f v) ≡ p k v)
      → any_row p (update k f t) ≡ any_row p t
  any_row-update p k f [] h = ground arith
  any_row-update p k f ((j, w) ∷ t) h = ground (arith, any_row-update p k f t h, h w)
