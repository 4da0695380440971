-- ===== src/Sandbox/Exact.antt =====
-- The prefixes allow every command but the blocked ones.
use boathouse_cloud.Prelude.{
  ℕ, zero, suc, ◌+◌, ◌*◌, ◌/◌, ◌%◌, ◌^◌, ◌<◌, ◌≡◌, refl, sym, ap, subst, ◌∙◌, inl, inr, Bool-cases,
  Bool, true, false, not, ◌&&◌, ◌||◌, List, [], ◌∷◌, ◌++◌, arith, ◌==◌,
}
use native.Mathlib.Omega.{pow_step}
use native.Mathlib.Nat.{div-div-eq-div-mul}
use boathouse_cloud.Sandbox.Prefixes.{
  bit_of, subset, Span, allowed_prefixes, is_allowed, is_blocked,
}

is_allowed-append :
    (c : ℕ) (ps qs : List Span) → is_allowed c (ps ++ qs) ≡ is_allowed c ps || is_allowed c qs
unfolding is_allowed
is_allowed-append c [] qs = refl
is_allowed-append c (p ∷ ps) qs = ground (arith, is_allowed-append c ps qs)

is_blocked-subset :
    (c bit choice : ℕ) (xs : List ℕ)
    → is_blocked c (subset bit choice xs) ≡ is_blocked c xs && bit_of bit c == choice
is_blocked-subset c bit choice [] = refl
is_blocked-subset c bit choice (x ∷ xs) = elim (Bool-cases (bit_of bit x == choice)) [
  | inl keep ↦
      rw (keep, is_blocked-subset c bit choice xs)
        (one (c == x) _ _ (λ e. subst (λ y. (bit_of bit y == choice) ≡ true) (same_command e) keep))
  | inr drop ↦
      rw (drop, is_blocked-subset c bit choice xs)
        (other (c == x) _ _
          (λ e. subst (λ y. (bit_of bit y == choice) ≡ false) (same_command e) drop))
]
  where
    same_command : (c == x) ≡ true → x ≡ c
    same_command e = ground arith

    one : (e p q : Bool) → (e ≡ true → q ≡ true) → (e || (p && q)) ≡ ((e || p) && q)
    one true p q h = sym (h refl)
    one false p q h = refl

    other : (e p q : Bool) → (e ≡ true → q ≡ false) → (p && q) ≡ ((e || p) && q)
    other true p q h = ground arith
    other false p q h = refl

halves : (c bit : ℕ) → c / 2 ^ suc bit ≡ c / 2 ^ bit / 2
halves c bit =
    ap (λ m. c / m) (omega (arith, pow_step 2 bit)) ∙ sym (div-div-eq-div-mul c (2 ^ bit) 2)

-- Every blocked command lies in the block of commands that is divided.
abbrev pub Within : ℕ → ℕ → List ℕ → Type 0
Within bits high [] = Unit
Within bits high (x ∷ xs) = (x / 2 ^ bits ≡ high) × Within bits high xs

Within-subset :
    (bit high choice : ℕ) (xs : List ℕ)
    → choice < 2
    → Within (suc bit) high xs
    → Within bit (2 * high + choice) (subset bit choice xs)
Within-subset bit high choice [] small h = tt
Within-subset bit high choice (x ∷ xs) small h = elim (Bool-cases (bit_of bit x == choice)) [
  | inl keep ↦ rw keep (
    within_half (x / 2 ^ bit) high choice small (rw (← halves x bit) h.0) keep,
    Within-subset bit high choice xs small h.1,
  )
  | inr drop ↦ rw drop (Within-subset bit high choice xs small h.1)
]
  where
    within_half :
        (q high choice : ℕ)
        → choice < 2
        → q / 2 ≡ high
        → (q % 2 == choice) ≡ true
        → q ≡ 2 * high + choice
    within_half q high choice small e r = ground arith

-- A block is divided by its next bit `q % 2`.
divided :
    (q high : ℕ) (blocked : Bool)
    → ((q == 2 * high && not (blocked && q % 2 == 0))
        || (q == 2 * high + 1 && not (blocked && q % 2 == 1)))
      ≡ (q / 2 == high && not blocked)
divided q high true = ground arith
divided q high false = ground arith

exact_from :
    (bits : ℕ) (blocked : List ℕ) (high c : ℕ)
    → Within bits high blocked
    → is_allowed c (allowed_prefixes blocked bits high)
      ≡ (c / 2 ^ bits == high && not (is_blocked c blocked))
unfolding is_allowed allowed_prefixes
exact_from bits [] high c h = ground arith
exact_from zero (x ∷ xs) high c h = ground arith
exact_from (suc bit) (x ∷ xs) high c h =
    let low = exact_from bit (subset bit 0 (x ∷ xs)) (2 * high) c (
      subst (λ k. Within bit k (subset bit 0 (x ∷ xs))) (omega arith)
        (Within-subset bit high 0 (x ∷ xs) (omega arith) h)) in
    let top =
      exact_from bit (subset bit 1 (x ∷ xs)) (2 * high + 1) c
        (Within-subset bit high 1 (x ∷ xs) (omega arith) h) in
    rw
      (
        is_allowed-append c _ _,
        low,
        top,
        is_blocked-subset c bit 0 (x ∷ xs),
        is_blocked-subset c bit 1 (x ∷ xs),
        halves c bit,
      )
      (divided (c / 2 ^ bit) high (is_blocked c (x ∷ xs)))

-- Blocked commands of 32 bits.
abbrev pub Below : List ℕ → Type 0
Below [] = Unit
Below (x ∷ xs) = (x < 2 ^ 32) × Below xs

Within-Below : (blocked : List ℕ) → Below blocked → Within 32 0 blocked
Within-Below [] h = tt
Within-Below (x ∷ xs) h = (omega arith, Within-Below xs h.1)

-- Where the blocked commands have 32 bits, a command of 32 bits agrees with one of the prefixes
-- exactly where it is not blocked.
pub allowed_prefixes-is_blocked :
    (blocked : List ℕ) (c : ℕ)
    → Below blocked
    → c < 2 ^ 32
    → is_allowed c (allowed_prefixes blocked 32 0) ≡ not (is_blocked c blocked)
allowed_prefixes-is_blocked blocked c h small =
    exact_from 32 blocked 0 c (Within-Below blocked h) ∙ ground arith
