-- ===== src/Prelude/Table/Where.antt =====
-- DELETE and UPDATE by other columns than the key.
use boathouse_cloud.Prelude.Tests.{if◌then◌else◌}
use boathouse_cloud.Prelude.Table.{Table, any_row, first_row, last_row, sum_rows}
use Prim.Native.Nat.{ℕ}
use mathlib.Core.Path.{◌≡◌, refl}
use mathlib.Core.Logic.{◌⊎◌, inl, inr}
use mathlib.Core.Option.{Option, none, some}
use mathlib.Core.Bool.{Bool, true, false, not, ◌&&◌}
use mathlib.Core.List.{[], ◌∷◌, ◌++◌}
use native.Mathlib.Omega.{arith}

module _ {ℓ} {V : Type ℓ} where
  -- DELETE WHERE p
  abbrev pub delete_rows : (ℕ → V → Bool) → Table V → Table V
  delete_rows p [] = []
  delete_rows p ((k, v) ∷ t) = if p k v then delete_rows p t else (k, v) ∷ delete_rows p t

  -- UPDATE SET f WHERE p
  abbrev pub set_rows : (ℕ → V → Bool) → (V → V) → Table V → Table V
  set_rows p f [] = []
  set_rows p f ((k, v) ∷ t) = (if p k v then (k, f v) else (k, v)) ∷ set_rows p f t

  -- What stays after a DELETE are the other rows.
  pub any_row-delete_rows :
      (p q : ℕ → V → Bool) (t : Table V)
      → any_row q (delete_rows p t) ≡ any_row (λ k v. not (p k v) && q k v) t
  any_row-delete_rows p q [] = refl
  any_row-delete_rows p q ((k, v) ∷ t) = ground (arith, any_row-delete_rows p q t)

  pub none_deleted : (p : ℕ → V → Bool) (t : Table V) → any_row p (delete_rows p t) ≡ false
  none_deleted p [] = refl
  none_deleted p ((k, v) ∷ t) = ground (arith, none_deleted p t)

  -- An UPDATE after which no row that it met is found again.
  pub none_set :
      (p q : ℕ → V → Bool) (f : V → V) (t : Table V)
      → ((k : ℕ) (v : V) → p k v ≡ true → q k (f v) ≡ false)
      → ((k : ℕ) (v : V) → p k v ≡ false → q k v ≡ false)
      → any_row q (set_rows p f t) ≡ false
  none_set p q f [] met other = refl
  none_set p q f ((k, v) ∷ t) met other =
      ground (arith, none_set p q f t met other, met k v, other k v)

  -- A row that a search returns meets its condition.
  pub first_row_meets :
      (p : ℕ → V → Bool) (t : Table V) (k : ℕ) (v : V) → first_row p t ≡ some (k, v) → p k v ≡ true
  first_row_meets p [] k v e = ground arith
  first_row_meets p ((j, w) ∷ t) k v e = ground (arith, first_row_meets p t k v)

  pub sum_rows-delete_rows :
      (p : ℕ → V → Bool) (g : V → ℕ) (t : Table V) → sum_rows p g (delete_rows p t) ≡ 0
  sum_rows-delete_rows p g [] = refl
  sum_rows-delete_rows p g ((k, v) ∷ t) = ground (arith, sum_rows-delete_rows p g t)

module _ {V : Type 0} where
  -- The row stands in the table under its key.
  abbrev pub HasRow : ℕ → V → Table V → Type 0
  HasRow k v [] = ⊥
  HasRow k v ((j, w) ∷ t) = ((k ≡ j) × (v ≡ w)) ⊎ HasRow k v t

  -- A row that a search returns stands in the table.
  pub first_row-HasRow :
      (p : ℕ → V → Bool) (t : Table V) (k : ℕ) (v : V) → first_row p t ≡ some (k, v) → HasRow k v t
  first_row-HasRow p [] k v e = ground arith
  first_row-HasRow p ((j, w) ∷ t) k v e = go (p j w) (first_row-HasRow p t k v) e
    where
      go :
          (b : Bool)
          → (first_row p t ≡ some (k, v) → HasRow k v t)
          → (if b then some (j, w) else first_row p t) ≡ some (k, v)
          → HasRow k v ((j, w) ∷ t)
      go true rest h = inl (ground arith)
      go false rest h = inr (rest h)

  -- So does the last row that meets a condition, and it meets it.
  pub last_row-HasRow :
      (p : ℕ → V → Bool) (t : Table V) (k : ℕ) (v : V)
      → last_row p t ≡ some (k, v)
      → HasRow k v t × (p k v ≡ true)
  last_row-HasRow p [] k v e = ground arith
  last_row-HasRow p ((j, w) ∷ t) k v e = go (last_row p t) (p j w) refl (last_row-HasRow p t k v) e
    where
      go :
          (o : Option (ℕ × V)) (b : Bool)
          → p j w ≡ b
          → (o ≡ some (k, v) → HasRow k v t × (p k v ≡ true))
          → (elim o as (λ _. Option (ℕ × V)) [
            | some r ↦ some r
            | none ↦ if b then some (j, w) else none
          ])
            ≡ some (k, v)
          → HasRow k v ((j, w) ∷ t) × (p k v ≡ true)
      go (some r) b met rest h = let found = rest h in (inr found.0, found.1)
      go none true met rest h = (inl (ground arith), ground arith)
      go none false met rest h = ground arith

  pub append-HasRow : (k : ℕ) (v : V) (t : Table V) → HasRow k v (t ++ (k, v) ∷ [])
  append-HasRow k v [] = inl (refl, refl)
  append-HasRow k v ((j, w) ∷ t) = inr (append-HasRow k v t)
