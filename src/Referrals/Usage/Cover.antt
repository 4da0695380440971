-- ===== src/Referrals/Usage/Cover.antt =====
-- The replay of a whole ledger against plain sums over its lines.
use boathouse_cloud.Prelude.{
  ℕ, suc, ◌+◌, ◌≤◌, refl, ap, ◌⊎◌, inl, inr, List, [], ◌∷◌, arith, ◌==◌, Bool-cases, if◌then◌else◌,
}
use boathouse_cloud.Prelude.Int.{ℤ, pos, negsuc}
use boathouse_cloud.Db.{Db, Line, Kind}
use boathouse_cloud.Referrals.Usage.{
  Replay, credit_of, is_eligible, move, replay_line, replay, paid_usage,
}
use boathouse_cloud.Referrals.Usage.Bounds.{
  Seen, IsCovered, deposit-IsCovered, spend-IsCovered, held, marked, marked-le_held,
}

-- The sums: verified cash net of returns, charges that can earn, and all credit and all spending.
abbrev pub see_amount : Db → ℕ → ℕ → Line → ℤ → Seen → Seen
see_amount db w rowid l (pos amount) s =
    let (cash, kept) = credit_of db w l amount in
    if amount == 0
    then s
    else record s { cash = s.cash + (if cash then kept else 0); credit = s.credit + kept }
see_amount db w rowid l (negsuc n) s = record s {
  eligible = s.eligible + (if is_eligible db rowid l then suc n else 0);
  usage = s.usage + suc n;
}

abbrev pub see_line : Db → ℕ → ℕ → Line → Seen → Seen
see_line db w rowid l s =
    if w == l.workspace_id
    then elim (l.kind) [ Kind.payment_return ↦ s | _ ↦ see_amount db w rowid l l.amount_cents s ]
    else s

pub see : Db → ℕ → ℕ → List Line → Seen → Seen
see db w rowid [] s = s
see db w rowid (l ∷ ls) s = see db w (rowid + 1) ls (see_line db w rowid l s)

abbrev pub nothing : Seen
nothing = record { cash = 0; eligible = 0; credit = 0; usage = 0 }

abbrev pub seen : Db → ℕ → Seen
seen db w = see db w 1 db.ledger nothing

module _ (db : Db) (w : ℕ) where
  move-IsCovered :
      (rowid : ℕ) (l : Line) (a : ℤ) (s : Seen) (r : Replay)
      → IsCovered s r
      → IsCovered (see_amount db w rowid l a s) (move db w rowid l a r)
  move-IsCovered rowid l (negsuc n) s r h = spend-IsCovered (is_eligible db rowid l) (suc n) s r h
  move-IsCovered rowid l (pos n) s r h =
      let (cash, kept) = credit_of db w l n in
      elim (Bool-cases (n == 0)) [
        | inl e ↦ rw e h
        | inr e ↦ rw e (deposit-IsCovered cash kept s r h)
      ]

  other_kind :
      (rowid : ℕ) (l : Line) (k : Kind) (s : Seen) (r : Replay)
      → IsCovered s r
      → IsCovered
          (elim k [ Kind.payment_return ↦ s | _ ↦ see_amount db w rowid l l.amount_cents s ])
          (elim k [ Kind.payment_return ↦ r | _ ↦ move db w rowid l l.amount_cents r ])
  other_kind rowid l Kind.payment_return s r h = h
  other_kind rowid l _ s r h = move-IsCovered rowid l l.amount_cents s r h

  line-IsCovered :
      (rowid : ℕ) (l : Line) (s : Seen) (r : Replay)
      → IsCovered s r
      → IsCovered (see_line db w rowid l s) (replay_line db w rowid l r)
  unfolding replay_line
  line-IsCovered rowid l s r h = elim (Bool-cases (w == l.workspace_id)) [
    | inl e ↦ rw e (other_kind rowid l l.kind s r h)
    | inr e ↦ rw e h
  ]

  replay-IsCovered :
      (rowid : ℕ) (ls : List Line) (s : Seen) (r : Replay)
      → IsCovered s r
      → IsCovered (see db w rowid ls s) (replay db w rowid ls r)
  unfolding see replay
  replay-IsCovered rowid [] s r h = h
  replay-IsCovered rowid (l ∷ ls) s r h =
      replay-IsCovered (rowid + 1) ls (see_line db w rowid l s) (replay_line db w rowid l r)
        (line-IsCovered rowid l s r h)

abbrev start : Replay
start = record { funds = []; debts = []; earned = 0 }

start-IsCovered : IsCovered nothing start
start-IsCovered = record {
  by_cash = omega arith;
  by_usage = omega arith;
  by_loss = omega arith;
  conserved = omega arith;
  one_sided = inl refl;
}

shortfall :
    (s : Seen) (r : Replay)
    → IsCovered s r
    → (s.cash + s.eligible ≤ r.earned + s.usage) ⊎ (s.cash + s.eligible ≤ r.earned + s.credit)
shortfall s r h = elim (h.one_sided) [
  | inl e ↦ inl (omega (arith, h.by_loss, ap marked e, marked-le_held r.debts))
  | inr e ↦
      inr (omega (arith, h.by_loss, h.conserved, ap held e, ap marked e, marked-le_held r.funds))
]

-- The usage that earns commission is at most the cash that came in net of returns, and at most the
-- usage that is eligible. It falls short of the smaller one by no more than free credit or
-- ineligible spending can explain: it is at least the cash less what was spent on other things, or
-- at least the eligible usage less the free credit.
pub paid_usage_bounds :
    (db : Db) (w : ℕ)
    → (paid_usage db w ≤ (seen db w).cash)
      × (paid_usage db w ≤ (seen db w).eligible)
      × (((seen db w).cash + (seen db w).eligible ≤ paid_usage db w + (seen db w).usage)
          ⊎ ((seen db w).cash + (seen db w).eligible ≤ paid_usage db w + (seen db w).credit))
unfolding paid_usage
paid_usage_bounds db w =
    let r = replay db w 1 db.ledger start in
    let h = replay-IsCovered db w 1 db.ledger nothing start start-IsCovered in
    (omega (arith, h.by_cash), omega (arith, h.by_usage), shortfall (seen db w) r h)
