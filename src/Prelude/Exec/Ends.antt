-- ===== src/Prelude/Exec/Ends.antt =====
-- What holds of the store however a call ends, by one rule for each kind of statement.
use mathlib.Core.Path.{◌≡◌, refl}
use mathlib.Core.Bool.{Bool, true, false}
use mathlib.Core.Option.{Option, none, some}
use boathouse_cloud.Prelude.Exec.Defs.{
  Run, ok, err, final, Exec, or_raise, fetch, atomically, raise_if, raise_when, modify, and_then,
  ◌>>=◌, ◌>>◌,
}
use boathouse_cloud.Prelude.Exec.Returns.{
  Ensures, Ensures-ok, Ensures-err, Ensures-always, Ensures-map, Ensures-raise_if, Ensures-or_raise,
  atomically_keeps,
}

-- `P` of the store, however a call ends.
pub record Always {ℓ} {S E A : Type 0} (P : S → Type ℓ) (x : Run S E A) : Type ℓ where
  pub at_end : P (final x)

module _ {ℓ} {S E A B : Type 0} {P : S → Type ℓ} {s : S} where
  pub Always-bind :
      (m : Exec S E A) (f : A → Exec S E B)
      → Always P (m s)
      → Ensures (λ a t. Always P (f a t)) (m s)
      → Always P ((m >>= f) s)
  unfolding ◌>>=◌
  Always-bind m f kept rest = go (m s) kept rest
    where
      go :
          (x : Run S E A)
          → Always P x
          → Ensures (λ a t. Always P (f a t)) x
          → Always P (and_then x f)
      go (ok a t) k h = h.holds
      go (err e t) k h = record { at_end = k.at_end }

module _ {ℓ} {S E A : Type 0} {P : S → Type ℓ} where
  pub Always-fetched : (o : Option A) (e : E) (s : S) → P s → Always P (or_raise o e s)
  Always-fetched none e s h = record { at_end = h }
  Always-fetched (some a) e s h = record { at_end = h }

-- The rule of sequence for an invariant.
pub Always-then {ℓ} :
    {S E A B : Type 0} {P : S → Type ℓ} {s : S} (m : Exec S E A) (f : A → Exec S E B)
    → Always P (m s)
    → ((a : A) (t : S) → P t → Always P (f a t))
    → Always P ((m >>= f) s)
Always-then {P = P} m f kept rest =
    Always-bind m f kept (Ensures-map rest (Ensures-always P _ kept.at_end))

pub Always-test {ℓ} :
    {S E : Type 0} {P : S → Type ℓ} (b : Bool) (e : E) (s : S) → P s → Always P (raise_if b e s)
Always-test true e s h = record { at_end = h }
Always-test false e s h = record { at_end = h }

module _ {ℓ} {S E A : Type 0} {P : S → Type ℓ} {s : S} where
  pub Always-ok : (a : A) → P s → Always {E = E} P (ok a s)
  Always-ok a h = record { at_end = h }

  pub Always-atomically :
      (m : Exec S E A) → P s → Ensures (λ _ t. P t) (m s) → Always P (atomically m s)
  Always-atomically m before h = record { at_end = atomically_keeps P m before h }

  pub Always-modify :
      (f : S → S) (k : Exec S E A) → P (f s) → Always P (k (f s)) → Always P ((modify f >> k) s)
  Always-modify f k before h =
      Always-bind (modify f) (λ _. k) (record { at_end = before }) (Ensures-ok _ _ _ h)

  pub Always-or_raise :
      {C : Type 0} (o : Option C) (e : E) (f : C → Exec S E A)
      → P s
      → ((c : C) → o ≡ some c → Always P (f c s))
      → Always P ((or_raise o e >>= f) s)
  Always-or_raise none e f before h =
      Always-bind _ f (record { at_end = before }) (Ensures-err _ _ _)
  Always-or_raise (some c) e f before h =
      Always-bind _ f (record { at_end = before }) (Ensures-ok _ _ _ (h c refl))

  pub Always-raise_if :
      (b : Bool) (e : E) (k : Exec S E A)
      → P s
      → (b ≡ false → Always P (k s))
      → Always P ((raise_if b e >> k) s)
  Always-raise_if true e k before h =
      Always-bind _ _ (record { at_end = before }) (Ensures-err _ _ _)
  Always-raise_if false e k before h =
      Always-bind _ _ (record { at_end = before }) (Ensures-ok _ _ _ (h refl))

  pub Always-raise_when :
      (test : S → Bool) (e : E) (k : Exec S E A)
      → P s
      → (test s ≡ false → Always P (k s))
      → Always P ((raise_when test e >> k) s)
  Always-raise_when test e k before h =
      Always-bind (raise_when test e) (λ _. k) (record { at_end = same_store (test s) })
        (Ensures-raise_if (test s) e s h)
    where
      same_store : (b : Bool) → P (final (raise_if b e s))
      same_store true = before
      same_store false = before

  pub Always-fetch :
      {C : Type 0} (get : S → Option C) (e : E) (f : C → Exec S E A)
      → P s
      → ((c : C) → get s ≡ some c → Always P (f c s))
      → Always P ((fetch get e >>= f) s)
  Always-fetch {C} get e f before h =
      Always-bind (fetch get e) f (record { at_end = same_store (get s) })
        (Ensures-or_raise (get s) e s h)
    where
      same_store : (o : Option C) → P (final (or_raise o e s))
      same_store none = before
      same_store (some c) = before
