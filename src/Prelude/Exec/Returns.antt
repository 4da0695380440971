-- ===== src/Prelude/Exec/Returns.antt =====
-- What holds where a call returns, by one rule for each kind of statement.
use mathlib.Core.Path.{◌≡◌, refl}
use mathlib.Core.Bool.{Bool, true, false}
use mathlib.Core.Option.{Option, none, some}
use boathouse_cloud.Prelude.Exec.Defs.{
  Run, ok, err, final, Exec, gets, or_raise, fetch, rolled_back, atomically, raise_if, raise_when,
  modify, and_then, ◌>>=◌, ◌>>◌,
}

-- `P` of the result and the store, if nothing was raised.
abbrev pub Returned {ℓ} : {S E A : Type 0} → (A → S → Type ℓ) → Run S E A → Type ℓ
Returned P (ok a s) = P a s
Returned P (err _ _) = Unit

pub record Ensures {ℓ} {S E A : Type 0} (P : A → S → Type ℓ) (x : Run S E A) : Type ℓ where
  pub holds : Returned P x

-- Where a call returns, it is what it returns.
pub Ensures-itself : {S E A : Type 0} (x : Run S E A) → Ensures (λ a s. x ≡ ok a s) x
Ensures-itself (ok a s) = record { holds = refl }
Ensures-itself (err e s) = record { holds = tt }

module _ {ℓ} {S E A : Type 0} where
  pub Ensures-ok : (P : A → S → Type ℓ) (a : A) (s : S) → P a s → Ensures {E = E} P (ok a s)
  Ensures-ok P a s h = record { holds = h }

  pub Ensures-err : (P : A → S → Type ℓ) (e : E) (s : S) → Ensures P (err e s)
  Ensures-err P e s = record { holds = tt }

  -- What holds of the store however a statement ends holds when it returns.
  pub Ensures-always : (P : S → Type ℓ) (x : Run S E A) → P (final x) → Ensures (λ _ s. P s) x
  Ensures-always P (ok a s) h = record { holds = h }
  Ensures-always P (err e s) h = record { holds = tt }

  pub Ensures-map {κ} :
      {P : A → S → Type ℓ} {Q : A → S → Type κ} {x : Run S E A}
      → ((a : A) (s : S) → P a s → Q a s)
      → Ensures P x
      → Ensures Q x
  Ensures-map {P = P} {Q = Q} {x = x} weaker h = go x h
    where
      go : (y : Run S E A) → Ensures P y → Ensures Q y
      go (ok a s) k = record { holds = weaker a s k.holds }
      go (err e s) k = record { holds = tt }

  pub Ensures-both {κ} :
      {P : A → S → Type ℓ} {Q : A → S → Type κ} {x : Run S E A}
      → Ensures P x
      → Ensures Q x
      → Ensures (λ a s. P a s × Q a s) x
  Ensures-both {P = P} {Q = Q} {x = x} h k = go x h k
    where
      go : (y : Run S E A) → Ensures P y → Ensures Q y → Ensures (λ a s. P a s × Q a s) y
      go (ok a s) h k = record { holds = (h.holds, k.holds) }
      go (err e s) h k = record { holds = tt }

  pub Ensures-or_raise :
      {Q : A → S → Type ℓ} (o : Option A) (e : E) (s : S)
      → ((a : A) → o ≡ some a → Q a s)
      → Ensures Q (or_raise o e s)
  Ensures-or_raise none e s h = record { holds = tt }
  Ensures-or_raise (some a) e s h = record { holds = h a refl }

  -- A transaction: an exception takes the store back to where it was.
  pub Ensures-atomically :
      {Q : A → S → Type ℓ} (m : Exec S E A) {s : S} → Ensures Q (m s) → Ensures Q (atomically m s)
  unfolding atomically
  Ensures-atomically {Q = Q} m {s = s} h = go (m s) h
    where
      go : (x : Run S E A) → Ensures Q x → Ensures Q (rolled_back s x)
      go (ok a t) k = k
      go (err e t) k = record { holds = tt }

  pub atomically_keeps :
      (P : S → Type ℓ) (m : Exec S E A) {s : S}
      → P s
      → Ensures (λ _ t. P t) (m s)
      → P (final (atomically m s))
  unfolding atomically
  atomically_keeps P m {s = s} before h = go (m s) h
    where
      go : (x : Run S E A) → Ensures (λ _ t. P t) x → P (final (rolled_back s x))
      go (ok a t) k = k.holds
      go (err e t) k = before

pub Ensures-raise_if {ℓ} :
    {S E : Type 0} {Q : Unit {0} → S → Type ℓ} (b : Bool) (e : E) (s : S)
    → (b ≡ false → Q tt s)
    → Ensures Q (raise_if b e s)
Ensures-raise_if true e s h = record { holds = tt }
Ensures-raise_if false e s h = record { holds = h refl }

-- The rule of sequence: the rest is entered only where the first part returned.
pub Ensures-bind {ℓ} :
    {S E A B : Type 0} {Q : B → S → Type ℓ} (m : Exec S E A) {f : A → Exec S E B} {s : S}
    → Ensures (λ a t. Ensures Q (f a t)) (m s)
    → Ensures Q ((m >>= f) s)
unfolding ◌>>=◌
Ensures-bind {S} {E} {A} {B} {Q} m {f} {s} h = go (m s) h
  where
    go : (x : Run S E A) → Ensures (λ a t. Ensures Q (f a t)) x → Ensures Q (and_then x f)
    go (ok a t) k = k.holds
    go (err e t) k = record { holds = tt }

-- One rule for each kind of statement that a block begins with.
module _ {ℓ} {S E B : Type 0} {Q : B → S → Type ℓ} {s : S} where
  pub after_modify :
      (f : S → S) (k : Exec S E B) → Ensures Q (k (f s)) → Ensures Q ((modify f >> k) s)
  after_modify f k h = Ensures-bind (modify f) (Ensures-ok _ _ _ h)

  pub after_gets :
      {A : Type 0} (get : S → A) (f : A → Exec S E B)
      → Ensures Q (f (get s) s)
      → Ensures Q ((gets get >>= f) s)
  after_gets get k h = Ensures-bind (gets get) (Ensures-ok _ _ _ h)

  pub after_raise_if :
      (b : Bool) (e : E) (k : Exec S E B)
      → (b ≡ false → Ensures Q (k s))
      → Ensures Q ((raise_if b e >> k) s)
  after_raise_if b e k h = Ensures-bind (raise_if b e) (Ensures-raise_if b e s h)

  pub after_raise_when :
      (test : S → Bool) (e : E) (k : Exec S E B)
      → (test s ≡ false → Ensures Q (k s))
      → Ensures Q ((raise_when test e >> k) s)
  after_raise_when test e k h = Ensures-bind (raise_when test e) (Ensures-raise_if (test s) e s h)

  pub after_fetch :
      {A : Type 0} (get : S → Option A) (e : E) (f : A → Exec S E B)
      → ((a : A) → get s ≡ some a → Ensures Q (f a s))
      → Ensures Q ((fetch get e >>= f) s)
  after_fetch get e k h = Ensures-bind (fetch get e) (Ensures-or_raise (get s) e s h)

  pub after_or_raise :
      {A : Type 0} (o : Option A) (e : E) (f : A → Exec S E B)
      → ((a : A) → o ≡ some a → Ensures Q (f a s))
      → Ensures Q ((or_raise o e >>= f) s)
  after_or_raise o e k h = Ensures-bind (or_raise o e) (Ensures-or_raise o e s h)
