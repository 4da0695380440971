-- ===== src/Referrals/Usage.antt =====
-- `_paid_usage` of control/app/referrals.py: the ledger of a workspace is replayed, oldest line
-- first, through a queue of funds and a queue of debts. A queue entry is an amount with a mark:
-- cash for a fund, eligible for a debt.
pub mod Bounds
pub mod Cover
use boathouse_cloud.Prelude.{
  ℕ, suc, ◌+◌, ◌-◌, Bool, true, false, ◌&&◌, ◌||◌, Option, none, some, List, [], ◌∷◌, ◌++◌, min,
  ltb, ◌==◌, if◌then◌else◌, same, is_some, get_or,
}
use boathouse_cloud.Prelude.Int.{ℤ, pos, negsuc}
use boathouse_cloud.Prelude.Table.{Table, find, first_row}
use boathouse_cloud.Db.{Db, Line, Ref, Prefix, Kind, PaymentOperation, PaymentStatus, PaymentReturn}

abbrev pub Queue : Type 0
Queue = List (ℕ × Bool)

pub record Drained : Type 0 where
  pub left : ℕ
  pub queue : Queue
  pub gained : ℕ

-- `while queue and remaining`: take from the front until the amount or the queue is used up. What
-- is taken counts as earned where the entry and the amount are both marked. An entry that is not
-- emptied has used up the amount, so the loop ends there.
unfoldable pub drain : Bool → ℕ → Queue → Drained
drain marked amount [] = record { left = amount; queue = []; gained = 0 }
drain marked amount ((size, mark) ∷ queue) =
    let used = min size amount in
    let gain = if marked && mark then used else 0 in
    let rest = drain marked (amount - used) queue in
    if amount == 0
    then record { left = 0; queue = (size, mark) ∷ queue; gained = 0 }
    else if size - used == 0
    then record rest { gained = gain + rest.gained }
    else record { left = amount - used; queue = (size - used, mark) ∷ queue; gained = gain }

pub record Replay : Type 0 where
  pub funds : Queue
  pub debts : Queue
  pub earned : ℕ

-- `if remaining: queue.append([remaining, mark])`
abbrev pub push : ℕ → Bool → Queue → Queue
push amount mark queue = if amount == 0 then queue else queue ++ (amount, mark) ∷ []

-- `amount > 0`: pay the debts, then keep the rest as a fund.
unfoldable pub deposit : Bool → ℕ → Replay → Replay
deposit cash amount r =
    let d = drain cash amount r.debts in
    record { funds = push d.left cash r.funds; debts = d.queue; earned = r.earned + d.gained }

-- `amount < 0`: spend the funds, then owe the rest.
unfoldable pub spend : Bool → ℕ → Replay → Replay
spend eligible amount r =
    let d = drain eligible amount r.funds in
    record { funds = d.queue; debts = push d.left eligible r.debts; earned = r.earned + d.gained }

abbrev pub is_succeeded : PaymentStatus → Bool
is_succeeded PaymentStatus.succeeded = true
is_succeeded _ = false

-- The SELECT over `payment_operations` LEFT JOIN `payment_returns`, at one reference: the amount of
-- a succeeded payment, and what is left of it after refunds and disputes.
abbrev pub held_of : Option PaymentReturn → ℕ
held_of none = 0
held_of (some r) = r.held_cents

abbrev pub proof_of : Db → ℕ → Option (ℕ × PaymentOperation) → Option (ℕ × ℕ)
proof_of db p none = none
proof_of db p (some (i, op)) = some (op.cents, op.cents - held_of (find p db.returns))

abbrev pub is_deposit : ℕ → ℕ → ℕ → PaymentOperation → Bool
is_deposit w p i op =
    w == op.workspace_id && (is_succeeded op.status && same op.provider_id (some p))

unfoldable pub paid : Db → ℕ → Option Ref → Option (ℕ × ℕ)
paid db w none = none
paid db w (some r) = elim (r.prefix) [
  | Prefix.stripe ↦ proof_of db r.name (first_row (is_deposit w r.name) db.payments)
  | _ ↦ none
]

-- `proof and proof[0] == amount`, and `proof[1] if is_cash else amount`
abbrev pub credited : Option (ℕ × ℕ) → ℕ → Bool × ℕ
credited none amount = (false, amount)
credited (some (cents, kept)) amount = if cents == amount then (true, kept) else (false, amount)

abbrev pub is_meter : Option Ref → Bool
is_meter none = false
is_meter (some r) = elim (r.prefix) [
  | Prefix.meter ↦ true
  | Prefix.organization_meter ↦ true
  | _ ↦ false
]

abbrev pub is_charge : Kind → Bool
is_charge Kind.charge = true
is_charge _ = false

-- Usage charges after the start of the programme earn; `rowid` counts the lines from 1.
abbrev pub is_eligible : Db → ℕ → Line → Bool
is_eligible db rowid l = is_charge l.kind && (is_meter l.ref && ltb db.start_rowid rowid)

-- The proof of a top-up; every other credit is free.
abbrev pub credit_of : Db → ℕ → Line → ℕ → Bool × ℕ
credit_of db w l amount = elim (l.kind) [
  | Kind.topup ↦ credited (paid db w l.ref) amount
  | _ ↦ (false, amount)
]

abbrev pub move : Db → ℕ → ℕ → Line → ℤ → Replay → Replay
move db w rowid l (pos amount) r =
    let (cash, kept) = credit_of db w l amount in if amount == 0 then r else deposit cash kept r
move db w rowid l (negsuc n) r = spend (is_eligible db rowid l) (suc n) r

-- The body of the loop over the workspace's lines.
unfoldable pub replay_line : Db → ℕ → ℕ → Line → Replay → Replay
replay_line db w rowid l r =
    if w == l.workspace_id
    then elim (l.kind) [ Kind.payment_return ↦ r | _ ↦ move db w rowid l l.amount_cents r ]
    else r

-- `rowid` is the position of the line in the whole ledger.
unfoldable pub replay : Db → ℕ → ℕ → List Line → Replay → Replay
replay db w rowid [] r = r
replay db w rowid (l ∷ ls) r = replay db w (rowid + 1) ls (replay_line db w rowid l r)

unfoldable pub paid_usage : Db → ℕ → ℕ
unfolding replay
paid_usage db w = (replay db w 1 db.ledger (record { funds = []; debts = []; earned = 0 })).earned
