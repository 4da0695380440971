-- ===== src/Registrar/Explained.antt =====
-- What an outcome of a call says of the registrar's answers.
use boathouse_cloud.Prelude.{
  ℕ, zero, suc, ◌+◌, ◌*◌, ◌≤◌, ◌≡◌, refl, Bool, true, false, not, ◌&&◌, ◌||◌, Option, none, some,
  arith, ◌==◌, ltb, leb, Bool-cases, inl, inr,
}
use boathouse_cloud.Registrar.Call.{
  Status, success, pending, failure, unrecognized, Answer, Body, unreadable, no_object, object,
  Response, Reply, interrupted, response, RegistrarError, Outcome, returned, raised, raised_by,
  rate_limit, wait_of, is_accepted, is_key_trouble, refused, recognized, judge_by, judge,
  after_reply, exchange, call,
}

-- A response under 400 with the status SUCCESS or PENDING.
abbrev pub grants : ℕ → Body → Bool
grants code (object a) = is_accepted a.status && ltb code 400
grants code _ = false

abbrev is_error : Status → Bool
is_error failure = true
is_error _ = false

-- The status ERROR under 500, for another reason than time, a conflict or the idempotency key, where
-- the answer does not say that the request may be sent again.
abbrev pub is_final : ℕ → Answer → Bool
is_final code a =
    is_error a.status
    && (ltb code 500
        && (not (code == 408)
            && (not (code == 409) && (not (is_key_trouble a.code) && not a.is_retryable))))

abbrev pub refuses : ℕ → Body → Bool
refuses code (object a) = is_final code a
refuses code _ = false

-- Of at most `left + 1` answers, all before one that meets the test limited the rate.
abbrev pub meets : (ℕ → Body → Bool) → Reply → Bool
meets p interrupted = false
meets p (response r) = not (r.status_code == 429) && p r.status_code r.body

abbrev pub is_limit : Reply → Bool
is_limit interrupted = false
is_limit (response r) = r.status_code == 429

abbrev pub reaches : (ℕ → Body → Bool) → (ℕ → Reply) → ℕ → ℕ → Bool
reaches p answers i zero = meets p (answers i)
reaches p answers i (suc left) =
    meets p (answers i) || (is_limit (answers i) && reaches p answers (suc i) left)

-- How an outcome follows from the two tests of the answers.
pub record IsCertain (keyed refusal : Bool) (e : RegistrarError) : Type 0 where
  pub keyed_only : e.is_uncertain ≡ true → keyed ≡ true
  pub refused_only : keyed ≡ true → e.is_uncertain ≡ false → refusal ≡ true

abbrev pub Explained : ℕ → Bool → Bool → Bool → Outcome → Type 0
Explained most keyed granted refusal (returned slept a) = (slept ≤ most) × (granted ≡ true)
Explained most keyed granted refusal (raised slept e) = (slept ≤ most) × IsCertain keyed refusal e

module _ (keyed : Bool) where
  refused-Explained :
      (most slept : ℕ) (g : Bool) (r : Response) (a : Answer)
      → slept ≤ most
      → is_error a.status ≡ not (is_accepted a.status)
      → (not (is_accepted a.status) || leb 400 r.status_code) ≡ true
      → Explained most keyed g (is_final r.status_code a) (refused keyed slept r a)
  refused-Explained most slept g r a h known bad =
      (h, record { keyed_only = λ u. ground arith; refused_only = λ k u. ground arith })

  recognized-Explained :
      (most slept : ℕ) (r : Response) (a : Answer)
      → slept ≤ most
      → is_error a.status ≡ not (is_accepted a.status)
      → Explained most keyed
          (is_accepted a.status && ltb r.status_code 400)
          (is_final r.status_code a)
          (recognized keyed slept r a)
  recognized-Explained most slept r a h known =
      elim (Bool-cases (not (is_accepted a.status) || leb 400 r.status_code)) [
        | inl bad ↦ rw bad (refused-Explained most slept false r a h known bad)
        | inr good ↦ rw good (h, ground arith)
      ]

  judged-Explained :
      (most slept : ℕ) (r : Response) (a : Answer) (s : Status)
      → slept ≤ most
      → a.status ≡ s
      → Explained most keyed
          (is_accepted a.status && ltb r.status_code 400)
          (is_final r.status_code a)
          (judge_by s keyed slept r a)
  judged-Explained most slept r a success h e = recognized-Explained most slept r a h (rw e refl)
  judged-Explained most slept r a pending h e = recognized-Explained most slept r a h (rw e refl)
  judged-Explained most slept r a failure h e = recognized-Explained most slept r a h (rw e refl)
  judged-Explained most slept r a unrecognized h e =
      (h, record { keyed_only = λ u. u; refused_only = λ k u. ground arith })

  judge-Explained :
      (most slept : ℕ) (r : Response) (b : Body)
      → slept ≤ most
      → Explained most keyed
          (grants r.status_code b)
          (refuses r.status_code b)
          (judge b keyed slept r)
  judge-Explained most slept r unreadable h =
      (h, record { keyed_only = λ u. u; refused_only = λ k u. ground arith })
  judge-Explained most slept r no_object h =
      (h, record { keyed_only = λ u. u; refused_only = λ k u. ground arith })
  judge-Explained most slept r (object a) h = judged-Explained most slept r a a.status h refl

  weaken-Explained :
      (most most' : ℕ) (g g' r r' : Bool) (o : Outcome)
      → most ≤ most'
      → (g ≡ true → g' ≡ true)
      → (r ≡ true → r' ≡ true)
      → Explained most keyed g r o
      → Explained most' keyed g' r' o
  weaken-Explained most most' g g' r r' (returned slept a) h hg hr x = (omega arith, hg x.1)
  weaken-Explained most most' g g' r r' (raised slept e) h hg hr x = (
    omega arith,
    record { keyed_only = x.1.keyed_only; refused_only = λ k u. hr (x.1.refused_only k u) },
  )

  last-Explained :
      (slept : ℕ) (a : Reply)
      → Explained slept keyed
          (meets grants a)
          (meets refuses a)
          (after_reply keyed slept (λ wait. raised_by slept rate_limit 429 keyed) a)
  last-Explained slept interrupted =
      (omega arith, record { keyed_only = λ u. u; refused_only = λ k u. ground arith })
  last-Explained slept (response r) = elim (Bool-cases (r.status_code == 429)) [
    | inl limited ↦
        rw limited (omega arith, record { keyed_only = λ u. u; refused_only = λ k u. ground arith })
    | inr other ↦ rw other (judge-Explained slept slept r r.body (omega arith))
  ]

  step-Explained :
      (most slept : ℕ) (g f : Bool) (rest : ℕ → Outcome) (a : Reply)
      → slept ≤ most
      → ((wait : ℕ) → wait ≤ 21 → Explained most keyed g f (rest wait))
      → Explained most keyed
          (meets grants a || (is_limit a && g))
          (meets refuses a || (is_limit a && f))
          (after_reply keyed slept rest a)
  step-Explained most slept g f rest interrupted h next =
      (h, record { keyed_only = λ u. u; refused_only = λ k u. ground arith })
  step-Explained most slept g f rest (response r) h next =
      elim (Bool-cases (r.status_code == 429)) [
        | inl limited ↦ rw limited (next (wait_of r.retry_after) (wait_bound r.retry_after))
        | inr other ↦ rw other (
            weaken-Explained most most _ _ _ _ _ (omega arith) (λ x. ground arith)
              (λ x. ground arith) (judge-Explained most slept r r.body h))
      ]
    where
      wait_bound : (o : Option ℕ) → wait_of o ≤ 21
      wait_bound none = omega arith
      wait_bound (some s) = ground arith

  exchange-Explained :
      (answers : ℕ → Reply) (i left slept : ℕ)
      → Explained
          (slept + 21 * left)
          keyed
          (reaches grants answers i left)
          (reaches refuses answers i left)
          (exchange keyed answers i left slept)
  exchange-Explained answers i zero slept =
      weaken-Explained slept (slept + 21 * 0) _ _ _ _ _ (omega arith) (λ x. x) (λ x. x)
        (last-Explained slept (answers i))
  exchange-Explained answers i (suc left) slept =
      step-Explained (slept + 21 * suc left) slept _ _ _ (answers i) (omega arith) (λ wait h.
        weaken-Explained (slept + wait + 21 * left) (slept + 21 * suc left) _ _ _ _ _ (omega arith)
          (λ x. x) (λ x. x) (exchange-Explained answers (suc i) left (slept + wait)))

-- A call sleeps at most 42 seconds. If it returns, an answer under 400 with the status SUCCESS or
-- PENDING follows only answers that limited the rate. If it raises, the operation is left uncertain
-- only with an idempotency key; and with a key and a connected registrar it is certain only where the
-- answer that ended it has the status ERROR under 500, is no timeout and no conflict, finds no fault
-- with the key, and does not say that the request may be sent again.
pub call-Explained :
    (authed connected keyed : Bool) (answers : ℕ → Reply)
    → Explained 42 keyed
        (reaches grants answers 0 2)
        ((authed && not connected) || reaches refuses answers 0 2)
        (call authed connected keyed answers)
unfolding call
call-Explained authed connected keyed answers = elim (Bool-cases (authed && not connected)) [
  | inl missing ↦
      rw missing
        (omega arith, record { keyed_only = λ u. ground arith; refused_only = λ k u. refl })
  | inr there ↦ rw there (
      weaken-Explained keyed 42 42 _ _ _ _ _ (omega arith) (λ x. x) (λ x. x)
        (exchange-Explained keyed answers 0 2 0))
]
