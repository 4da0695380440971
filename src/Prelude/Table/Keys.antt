-- ===== src/Prelude/Table/Keys.antt =====
-- A primary key: no two rows have the same.
use boathouse_cloud.Prelude.Table.{Table, find, update, first_row, find-update, find-append}
use Prim.Native.Nat.{ℕ}
use mathlib.Core.Path.{◌≡◌, refl}
use mathlib.Core.Bool.{Bool}
use mathlib.Core.Option.{none, some}
use mathlib.Core.List.{[], ◌∷◌, ◌++◌}
use native.Mathlib.Omega.{arith}

module _ {ℓ} {V : Type ℓ} where
  abbrev pub IsKeyed : Table V → Type ℓ
  IsKeyed [] = Unit
  IsKeyed ((k, v) ∷ t) = (find k t ≡ none) × IsKeyed t

  pub update-IsKeyed : (k : ℕ) (f : V → V) (t : Table V) → IsKeyed t → IsKeyed (update k f t)
  update-IsKeyed k f [] h = tt
  update-IsKeyed k f ((j, v) ∷ t) h =
      ground (arith, find-update j k f t, update-IsKeyed k f t h.1, h.0)

  pub append-IsKeyed :
      (k : ℕ) (v : V) (t : Table V) → find k t ≡ none → IsKeyed t → IsKeyed (t ++ (k, v) ∷ [])
  append-IsKeyed k v [] e h = (refl, tt)
  append-IsKeyed k v ((j, w) ∷ t) e h =
      ground (arith, find-append j k v t, append-IsKeyed k v t, h.0, h.1)

  -- A row that a search returns is the row under its key.
  pub find-first_row :
      (p : ℕ → V → Bool) (t : Table V) (k : ℕ) (v : V)
      → IsKeyed t
      → first_row p t ≡ some (k, v)
      → find k t ≡ some v
  find-first_row p [] k v h e = ground arith
  find-first_row p ((j, w) ∷ t) k v h e = ground (arith, find-first_row p t k v h.1, h.0)
