-- ===== src/Accounts/Throttle.antt =====
-- `throttle` and `record_attempt` of control/app/auth.py, and what they promise: the brake on guessing
-- counts the attempts of the last `window` seconds.
use boathouse_cloud.Prelude.{
  ℕ, suc, ◌+◌, ◌≤◌, ◌≡◌, refl, Bool, ◌&&◌, Option, none, some, List, ◌++◌, [], ◌∷◌, arith, ◌==◌,
  ltb, leb, get_or, if◌then◌else◌,
}
use boathouse_cloud.Prelude.Table.{Table, find, update, find-update, find-append}

abbrev pub size : List ℕ → ℕ
size [] = 0
size (t ∷ ts) = suc (size ts)

-- `_attempts.get(key, [])`
abbrev pub times : ℕ → Table (List ℕ) → List ℕ
times key a = get_or [] (find key a)

-- `_attempts[key] = hits`
abbrev pub put_over : ℕ → List ℕ → Option (List ℕ) → Table (List ℕ) → Table (List ℕ)
put_over key ts none a = a ++ (key, ts) ∷ []
put_over key ts (some old) a = update key (λ _. ts) a

abbrev pub put : ℕ → List ℕ → Table (List ℕ) → Table (List ℕ)
put key ts a = put_over key ts (find key a) a

-- `record_attempt`
unfoldable pub record_attempt : ℕ → ℕ → Table (List ℕ) → Table (List ℕ)
record_attempt now key a = put key (times key a ++ now ∷ []) a

times-put_over :
    (k key : ℕ) (ts : List ℕ) (o : Option (List ℕ)) (a : Table (List ℕ))
    → find key a ≡ o
    → times k (put_over key ts o a) ≡ (if k == key then ts else times k a)
times-put_over k key ts none a e = ground (arith, find-append k key ts a)
times-put_over k key ts (some old) a e = ground (arith, find-update k key (λ _. ts) a)

times-put :
    (k key : ℕ) (ts : List ℕ) (a : Table (List ℕ))
    → times k (put key ts a) ≡ (if k == key then ts else times k a)
times-put k key ts a = times-put_over k key ts (find key a) a refl

-- A call of the module, at a time.
pub data Call : Type 0 where
  attempt ask : ℕ → ℕ → Call

module _ (limit window : ℕ) where
  -- `[t for t in … if now - t < window]`
  abbrev pub recent : ℕ → List ℕ → List ℕ
  recent now [] = []
  recent now (t ∷ ts) = if ltb now (t + window) then t ∷ recent now ts else recent now ts

  -- `throttle`: true when the caller must wait.
  unfoldable pub throttle : ℕ → ℕ → Table (List ℕ) → Bool × Table (List ℕ)
  throttle now key a =
      (leb limit (size (recent now (times key a))), put key (recent now (times key a)) a)

  -- The answers to a sequence of calls.
  unfoldable pub answers : List Call → Table (List ℕ) → List Bool
  unfolding throttle record_attempt
  answers [] a = []
  answers (attempt now key ∷ cs) a = answers cs (record_attempt now key a)
  answers (ask now key ∷ cs) a = (throttle now key a).0 ∷ answers cs (throttle now key a).1

  -- The specification: a log of all attempts, of which nothing is forgotten.
  abbrev pub seen : ℕ → ℕ → List (ℕ × ℕ) → ℕ
  seen now key [] = 0
  seen now key ((t, k) ∷ log) =
      (if k == key && ltb now (t + window) then 1 else 0) + seen now key log

  unfoldable pub promised : List Call → List (ℕ × ℕ) → List Bool
  promised [] log = []
  promised (attempt now key ∷ cs) log = promised cs ((now, key) ∷ log)
  promised (ask now key ∷ cs) log = leb limit (seen now key log) ∷ promised cs log

  abbrev pub Ordered : ℕ → List Call → Type 0
  Ordered clock [] = Unit
  Ordered clock (attempt now key ∷ cs) = (clock ≤ now) × Ordered now cs
  Ordered clock (ask now key ∷ cs) = (clock ≤ now) × Ordered now cs

  -- From now on the lists count what the log counts.
  record Refines (clock : ℕ) (a : Table (List ℕ)) (log : List (ℕ × ℕ)) : Type 0 where
    agree : (later key : ℕ) → clock ≤ later → size (recent later (times key a)) ≡ seen later key log

  recent-append :
      (now t : ℕ) (ts : List ℕ)
      → size (recent now (ts ++ t ∷ []))
        ≡ size (recent now ts) + (if ltb now (t + window) then 1 else 0)
  recent-append now t [] = ground arith
  recent-append now t (s ∷ ts) = ground (arith, recent-append now t ts)

  -- What is dropped would not be counted later either.
  recent-recent :
      (now later : ℕ) (ts : List ℕ)
      → now ≤ later
      → size (recent later (recent now ts)) ≡ size (recent later ts)
  recent-recent now later [] h = refl
  recent-recent now later (t ∷ ts) h = ground (arith, recent-recent now later ts h)

  attempt-Refines :
      (clock now key : ℕ) (a : Table (List ℕ)) (log : List (ℕ × ℕ))
      → clock ≤ now
      → Refines clock a log
      → Refines now (record_attempt now key a) ((now, key) ∷ log)
  unfolding record_attempt
  attempt-Refines clock now key a log h r = record {
    agree = λ later k l.
        let fine : clock ≤ later = omega arith in
        ground (
          arith,
          times-put k key (times key a ++ now ∷ []) a,
          recent-append later now (times key a),
          r.agree later k fine,
          r.agree later key fine,
        );
  }

  throttle-Refines :
      (clock now key : ℕ) (a : Table (List ℕ)) (log : List (ℕ × ℕ))
      → clock ≤ now
      → Refines clock a log
      → Refines now (throttle now key a).1 log
  unfolding throttle
  throttle-Refines clock now key a log h r = record {
    agree = λ later k l.
        let fine : clock ≤ later = omega arith in
        ground (
          arith,
          times-put k key (recent now (times key a)) a,
          recent-recent now later (times key a) l,
          r.agree later k fine,
          r.agree later key fine,
        );
  }

  answers-Refines :
      (clock : ℕ) (cs : List Call) (a : Table (List ℕ)) (log : List (ℕ × ℕ))
      → Ordered clock cs
      → Refines clock a log
      → answers cs a ≡ promised cs log
  unfolding answers promised
  answers-Refines clock [] a log h r = refl
  answers-Refines clock (attempt now key ∷ cs) a log h r =
      answers-Refines now cs _ _ h.1 (attempt-Refines clock now key a log h.0 r)
  answers-Refines clock (ask now key ∷ cs) a log h r = rw (
    r.agree now key h.0,
    answers-Refines now cs (throttle now key a).1 log h.1
        (throttle-Refines clock now key a log h.0 r),
  )

  -- For callers with one window, whose clock does not go back, the lists that are pruned at every call
  -- give the answers of a log from which nothing is dropped: a key has to wait exactly when `limit`
  -- attempts of it are younger than `window` seconds.
  pub answers-promised : (cs : List Call) → Ordered 0 cs → answers cs [] ≡ promised cs []
  answers-promised cs h = answers-Refines 0 cs [] [] h (record { agree = λ later key l. refl })
