-- ===== src/Referrals/Usage/Bounds.antt =====
-- What the replay conserves.
use boathouse_cloud.Prelude.{
  ℕ, ◌+◌, ◌-◌, ◌≤◌, ◌≡◌, refl, Bool, true, false, ◌⊎◌, inl, inr, [], ◌∷◌, arith, min, if◌then◌else◌,
}
use boathouse_cloud.Referrals.Usage.{Queue, drain, Replay, push, deposit, spend}

-- what a queue holds, and what its marked entries hold
abbrev pub held : Queue → ℕ
held [] = 0
held ((size, mark) ∷ q) = size + held q

abbrev pub marked : Queue → ℕ
marked [] = 0
marked ((size, mark) ∷ q) = (if mark then size else 0) + marked q

pub marked-le_held : (q : Queue) → marked q ≤ held q
marked-le_held [] = omega arith
marked-le_held ((size, true) ∷ q) = omega (arith, marked-le_held q)
marked-le_held ((size, false) ∷ q) = omega (arith, marked-le_held q)

held-push : (n : ℕ) (b : Bool) (q : Queue) → held (push n b q) ≡ held q + n
held-push n b [] = ground arith
held-push n b (e ∷ q) = ground (arith, held-push n b q)

marked-push : (n : ℕ) (b : Bool) (q : Queue) → marked (push n b q) ≡ marked q + (if b then n else 0)
marked-push n b [] = ground arith
marked-push n b (e ∷ q) = ground (arith, marked-push n b q)

-- What leaves the queue is what the amount loses, and a rest means an empty queue.
drain-held :
    (b : Bool) (n : ℕ) (q : Queue) → (held (drain b n q).queue + n ≡ held q + (drain b n q).left)
unfolding drain
drain-held b n [] = ground arith
drain-held b n ((size, mark) ∷ q) = ground (arith, drain-held b (n - min size n) q)

drain-left : (b : Bool) (n : ℕ) (q : Queue) → ((drain b n q).left ≡ 0) ⊎ ((drain b n q).queue ≡ [])
unfolding drain
drain-left b n [] = inr refl
drain-left b n ((size, mark) ∷ q) = ground (arith, drain-left b (n - min size n) q)

-- A marked amount gains what the marked entries lose; an unmarked one gains nothing.
gained_marked :
    (n : ℕ) (q : Queue) → (drain true n q).gained + marked (drain true n q).queue ≡ marked q
unfolding drain
gained_marked n [] = ground arith
gained_marked n ((size, true) ∷ q) = ground (arith, gained_marked (n - min size n) q)
gained_marked n ((size, false) ∷ q) = ground (arith, gained_marked (n - min size n) q)

gained_unmarked : (n : ℕ) (q : Queue) → (drain false n q).gained ≡ 0
unfolding drain
gained_unmarked n [] = refl
gained_unmarked n ((size, mark) ∷ q) = ground (arith, gained_unmarked (n - min size n) q)

marked-drain : (b : Bool) (n : ℕ) (q : Queue) → marked (drain b n q).queue ≤ marked q
unfolding drain
marked-drain b n [] = ground arith
marked-drain b n ((size, mark) ∷ q) = ground (arith, marked-drain b (n - min size n) q)

-- The marked entries lose no more than all entries do.
unmarked-drain :
    (b : Bool) (n : ℕ) (q : Queue)
    → held (drain b n q).queue + marked q ≤ held q + marked (drain b n q).queue
unfolding drain
unmarked-drain b n [] = ground arith
unmarked-drain b n ((size, mark) ∷ q) = ground (arith, unmarked-drain b (n - min size n) q)

gained-le : (b : Bool) (n : ℕ) (q : Queue) → (drain b n q).gained + (drain b n q).left ≤ n
unfolding drain
gained-le b n [] = ground arith
gained-le b n ((size, mark) ∷ q) = ground (arith, gained-le b (n - min size n) q)

queue-drain_nil : (b : Bool) (n : ℕ) (q : Queue) → q ≡ [] → (drain b n q).queue ≡ []
unfolding drain
queue-drain_nil b n [] h = refl
queue-drain_nil b n (e ∷ q) h = cc

-- After a drain the rest is empty or the queue is.
stays_one_sided :
    (b : Bool) (n : ℕ) (p q : Queue)
    → (p ≡ []) ⊎ (q ≡ [])
    → (push (drain b n q).left b p ≡ []) ⊎ ((drain b n q).queue ≡ [])
stays_one_sided b n p q (inr e) = inr (queue-drain_nil b n q e)
stays_one_sided b n p q (inl e) = elim (drain-left b n q) [
  | inl done ↦ inl (rw (done, e))
  | inr empty ↦ inr empty
]

-- What the replay has seen so far: cash in, eligible usage out, and their sums with everything else.
pub record Seen : Type 0 where
  pub cash : ℕ
  pub eligible : ℕ
  pub credit : ℕ
  pub usage : ℕ

-- Earned usage is covered by cash and by eligible usage; what is held and owed accounts for the
-- rest; and funds and debts are never both there.
pub record IsCovered (s : Seen) (r : Replay) : Type 0 where
  pub by_cash : r.earned + marked r.funds ≤ s.cash
  pub by_usage : r.earned + marked r.debts ≤ s.eligible
  pub by_loss :
      s.cash + s.eligible + held r.debts ≤ r.earned + marked r.funds + s.usage + marked r.debts
  pub conserved : s.usage + held r.funds ≡ s.credit + held r.debts
  pub one_sided : (r.funds ≡ []) ⊎ (r.debts ≡ [])

pub deposit-IsCovered :
    (cash : Bool) (n : ℕ) (s : Seen) (r : Replay)
    → IsCovered s r
    → IsCovered
        (record s { cash = s.cash + (if cash then n else 0); credit = s.credit + n })
        (deposit cash n r)
unfolding deposit
deposit-IsCovered true n s r h =
    let d = drain true n r.debts in
    record {
      by_cash = ground (arith, gained-le true n r.debts, marked-push d.left true r.funds);
      by_usage = ground (arith, gained_marked n r.debts);
      by_loss = ground (
        arith,
        gained_marked n r.debts,
        drain-held true n r.debts,
        marked-push d.left true r.funds,
      );
      conserved = ground (arith, drain-held true n r.debts, held-push d.left true r.funds);
      one_sided = stays_one_sided true n r.funds r.debts h.one_sided;
    }
deposit-IsCovered false n s r h =
    let d = drain false n r.debts in
    record {
      by_cash = ground (arith, gained_unmarked n r.debts, marked-push d.left false r.funds);
      by_usage = ground (arith, gained_unmarked n r.debts, marked-drain false n r.debts);
      by_loss = ground (
        arith,
        gained_unmarked n r.debts,
        unmarked-drain false n r.debts,
        marked-push d.left false r.funds,
      );
      conserved = ground (arith, drain-held false n r.debts, held-push d.left false r.funds);
      one_sided = stays_one_sided false n r.funds r.debts h.one_sided;
    }

swap_sides : {A B : Type 0} → A ⊎ B → B ⊎ A
swap_sides (inl a) = inr a
swap_sides (inr b) = inl b

pub spend-IsCovered :
    (eligible : Bool) (n : ℕ) (s : Seen) (r : Replay)
    → IsCovered s r
    → IsCovered
        (record s { eligible = s.eligible + (if eligible then n else 0); usage = s.usage + n })
        (spend eligible n r)
unfolding spend
spend-IsCovered true n s r h =
    let d = drain true n r.funds in
    record {
      by_cash = ground (arith, gained_marked n r.funds);
      by_usage = ground (arith, gained-le true n r.funds, marked-push d.left true r.debts);
      by_loss = ground (
        arith,
        gained_marked n r.funds,
        marked-push d.left true r.debts,
        held-push d.left true r.debts,
      );
      conserved = ground (arith, drain-held true n r.funds, held-push d.left true r.debts);
      one_sided = swap_sides (stays_one_sided true n r.debts r.funds (swap_sides h.one_sided));
    }
spend-IsCovered false n s r h =
    let d = drain false n r.funds in
    record {
      by_cash = ground (arith, gained_unmarked n r.funds, marked-drain false n r.funds);
      by_usage = ground (arith, gained_unmarked n r.funds, marked-push d.left false r.debts);
      by_loss = ground (
        arith,
        gained_unmarked n r.funds,
        unmarked-drain false n r.funds,
        drain-held false n r.funds,
        marked-push d.left false r.debts,
        held-push d.left false r.debts,
      );
      conserved = ground (arith, drain-held false n r.funds, held-push d.left false r.debts);
      one_sided = swap_sides (stays_one_sided false n r.debts r.funds (swap_sides h.one_sided));
    }
