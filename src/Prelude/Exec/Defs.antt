-- ===== src/Prelude/Exec/Defs.antt =====
-- Statements against a store that may raise. What was written before an exception stays written,
-- unless `atomically` (BEGIN IMMEDIATE … COMMIT on one connection) takes it back.
use mathlib.Core.Bool.{Bool, true, false}
use mathlib.Core.Option.{Option, none, some}

-- How a call ends: with a result or an exception, and with the store that it leaves.
pub data Run (S E A : Type 0) : Type 0 where
  ok : A → S → Run S E A
  err : E → S → Run S E A

abbrev pub final : {S E A : Type 0} → Run S E A → S
final (ok a s) = s
final (err e s) = s

abbrev pub Exec : Type 0 → Type 0 → Type 0 → Type 0
Exec S E A = S → Run S E A

module _ {S E A : Type 0} where
  abbrev pub pure : A → Exec S E A
  pure a s = ok a s

  abbrev pub raise : E → Exec S E A
  raise e s = err e s

  abbrev pub gets : (S → A) → Exec S E A
  gets f s = ok (f s) s

  -- a row that was fetched, or the exception on a missing one
  abbrev pub or_raise : Option A → E → Exec S E A
  or_raise none e s = err e s
  or_raise (some a) e s = ok a s

  -- a row that a SELECT returns, or an exception where there is none
  abbrev pub fetch : (S → Option A) → E → Exec S E A
  fetch get e s = or_raise (get s) e s

  -- a connection that closes on an exception without COMMIT rolls its transaction back
  abbrev pub rolled_back : S → Run S E A → Run S E A
  rolled_back before (ok a after) = ok a after
  rolled_back before (err e after) = err e before

  unfoldable pub atomically : Exec S E A → Exec S E A
  atomically m s = rolled_back s (m s)

module _ {S E : Type 0} where
  abbrev pub raise_if : Bool → E → Exec S E (Unit {0})
  raise_if true e s = err e s
  raise_if false e s = ok tt s

  -- an exception on a test of the store
  abbrev pub raise_when : (S → Bool) → E → Exec S E (Unit {0})
  raise_when test e s = raise_if (test s) e s

  abbrev pub modify : (S → S) → Exec S E (Unit {0})
  modify f s = ok tt (f s)

abbrev pub and_then : {S E A B : Type 0} → Run S E A → (A → Exec S E B) → Run S E B
and_then (ok a s) f = f a s
and_then (err e s) f = err e s

infixl 5 ◌>>=◌ ◌>>◌
unfoldable pub ◌>>=◌ : {S E A B : Type 0} → Exec S E A → (A → Exec S E B) → Exec S E B
◌>>=◌ m f s = and_then (m s) f

abbrev pub ◌>>◌ : {S E A B : Type 0} → Exec S E A → Exec S E B → Exec S E B
m >> k = m >>= λ _. k
