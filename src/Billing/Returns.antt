-- ===== src/Billing/Returns.antt =====
-- `reconcile` of control/app/payment_returns.py: refunds and disputes as the card processor reports
-- them. The processor is a parameter; `refunds` and `disputes` are all pages of its lists, or nothing
-- where a page cannot be read.
pub mod Books
pub mod Held
use boathouse_cloud.Prelude.{
  ℕ, ◌+◌, Bool, true, false, not, ◌&&◌, ◌||◌, Option, none, some, List, [], ◌∷◌, ◌++◌, ◌==◌, same,
  is_some, min, if◌then◌else◌,
}
use boathouse_cloud.Prelude.Int.{ℤ, pos, negsuc, ◌+ℤ◌, ◌-ℤ◌, ltb_ℤ}
use boathouse_cloud.Prelude.Table.{Table, find, update, first_row}
use boathouse_cloud.Prelude.Exec.{
  ok, err, pure, raise, raise_if, raise_when, modify, fetch, gets, or_raise, atomically, ◌>>=◌,
  ◌>>◌,
}
use boathouse_cloud.Db.{
  Db, Workspace, Line, Kind, Memo, Ref, Prefix, PaymentOperation, PaymentReturn, PaymentIntent,
  StripeError, Code, Error, Action,
}
use boathouse_cloud.Db.Ledger.{write_line, clashes}
use boathouse_cloud.Referrals.Usage.{is_succeeded, held_of}
use boathouse_cloud.Referrals.Sync.{sync, is_zero}
use boathouse_cloud.Billing.Payments.{stripe_error, matches, complete_payment}
use boathouse_cloud.Billing.Execute.{Provider, Reply, intent, failure}
use boathouse_cloud.Billing.Refill.{pause_at, set_paused}

-- `succeeded`; `pending` or `requires_action`; any other.
pub data RefundStatus : Type 0 where
  refunded underway refund_other : RefundStatus

-- `needs_response`, `under_review` or `lost`; any other.
pub data DisputeStatus : Type 0 where
  withdrawn dispute_other : DisputeStatus

-- A row of either list: `amount` is `none` where it is no integer, or a negative one.
pub record Returned (S : Type 0) : Type 0 where
  pub payment_intent : Option ℕ
  pub is_usd : Bool
  pub amount : Option ℕ
  pub status : S

pub record Processor : Type 0 where
  pub payments : Provider
  pub refunds : ℕ → Option (List (Returned RefundStatus))
  pub disputes : ℕ → Option (List (Returned DisputeStatus))

abbrev pub cents_of : Option ℕ → ℕ
cents_of none = 0
cents_of (some n) = n

abbrev pub are_valid : {S : Type 0} → ℕ → List (Returned S) → Bool
are_valid i [] = true
are_valid i (r ∷ rs) =
    same r.payment_intent (some i) && (r.is_usd && is_some r.amount) && are_valid i rs

abbrev pub sum_of : {S : Type 0} → (S → Bool) → List (Returned S) → ℕ
sum_of test [] = 0
sum_of test (r ∷ rs) = (if test r.status then cents_of r.amount else 0) + sum_of test rs

abbrev pub is_refunded : RefundStatus → Bool
is_refunded refunded = true
is_refunded _ = false

abbrev pub is_underway : RefundStatus → Bool
is_underway underway = true
is_underway _ = false

abbrev pub is_withdrawn : DisputeStatus → Bool
is_withdrawn withdrawn = true
is_withdrawn dispute_other = false

-- INSERT INTO payment_returns … ON CONFLICT(provider_id) DO UPDATE, which leaves the workspace
abbrev pub put_return : ℕ → PaymentReturn → Table PaymentReturn → Table PaymentReturn
put_return i row t =
    if is_some (find i t)
    then update i
        (λ old. record old {
          refunded_cents = row.refunded_cents;
          disputed_cents = row.disputed_cents;
          held_cents = row.held_cents;
        })
        t
    else t ++ (i, row) ∷ []

abbrev pub return_line : ℕ → ℕ → ℕ → ℤ → Workspace → Line
return_line ident now w delta ws = record {
  workspace_id = w;
  ts = now;
  kind = Kind.payment_return;
  amount_cents = pos 0 -ℤ delta;
  balance_after = ws.balance_cents -ℤ delta;
  memo = Memo.plain;
  ref = some (record { prefix = Prefix.other; name = ident; day = 0 });
}

-- `if delta:`
abbrev pub move_return : ℕ → ℕ → ℕ → ℤ → Action (Unit {0})
move_return ident now w delta = if is_zero delta then pure tt else do
  ws ← fetch (λ db. find w db.workspaces) Error.crash
  raise_when (λ db. clashes (return_line ident now w delta ws).ref db.ledger) Error.crash
  modify (write_line (return_line ident now w delta ws))

pub apply_body : ℕ → ℕ → ℕ → PaymentReturn → Action ℤ
apply_body ident now i row = do
  before ← gets (λ db. held_of (find i db.returns))
  modify (λ db. record db { returns = put_return i row db.returns })
  move_return ident now row.workspace_id (pos row.held_cents -ℤ pos before)
  sync row.workspace_id
  pure (pos row.held_cents -ℤ pos before)

-- The transaction: what is held of payment `i` becomes `held_cents`, and the balance moves by the
-- difference. `ident` is the reference that the line draws.
pub apply_return : ℕ → ℕ → ℕ → PaymentReturn → Action ℤ
unfolding apply_body
apply_return ident now i row = atomically (apply_body ident now i row)

abbrev pub pause_returned : ℕ → ℤ → Workspace → Action (Unit {0})
pause_returned w delta ws db = ok tt (
    if not (ltb_ℤ pause_at ws.balance_cents) && not ws.paused
    then set_paused true w db
    else if ltb_ℤ delta (pos 0) && (ltb_ℤ pause_at ws.balance_cents && ws.paused)
    then set_paused false w db
    else db)

abbrev pub replied : Reply → Action (Option PaymentIntent)
replied (intent pi) = pure pi
replied (failure e) = raise (Error.stripe e)

abbrev pub return_of :
    PaymentOperation → List (Returned RefundStatus) → List (Returned DisputeStatus) → PaymentReturn
return_of op rs ds = record {
  workspace_id = op.workspace_id;
  refunded_cents = sum_of is_refunded rs;
  disputed_cents = sum_of is_withdrawn ds;
  held_cents =
      min op.cents (sum_of is_refunded rs + sum_of is_underway rs + sum_of is_withdrawn ds);
}

abbrev pub is_paid_by : ℕ → ℕ → PaymentOperation → Bool
is_paid_by i opid op = same op.provider_id (some i) && is_succeeded op.status

abbrev pub named_operation : Option PaymentIntent → Db → Option (ℕ × PaymentOperation)
named_operation none db = none
named_operation (some pi) db = elim (pi.operation) [
  | none ↦ none
  | some opid ↦ elim (find opid db.payments) [ none ↦ none | some op ↦ some (opid, op) ]
]

module _ (p : Processor) where
  pub reconcile_operation : ℕ → ℕ → ℕ → ℕ → PaymentOperation → Action (Option (ℕ × ℤ))
  reconcile_operation ident now i opid op = do
    pi ← replied (p.payments.get_intent i)
    raise_if (not (matches opid op pi)) (stripe_error Code.identity_mismatch true)
    if is_succeeded op.status then pure (pos 0) else complete_payment now opid op pi
    rs ← or_raise (p.refunds i) (stripe_error Code.bad_returns false)
    ds ← or_raise (p.disputes i) (stripe_error Code.bad_returns false)
    raise_if (not (are_valid i rs && are_valid i ds)) (stripe_error Code.bad_returns false)
    delta ← apply_return ident now i (return_of op rs ds)
    ws ← fetch (λ db. find op.workspace_id db.workspaces) Error.crash
    pause_returned op.workspace_id delta ws
    pure (some ((return_of op rs ds).held_cents, pos 0 -ℤ delta))

  abbrev pub reconcile_named : ℕ → ℕ → ℕ → Option (ℕ × PaymentOperation) → Action (Option (ℕ × ℤ))
  reconcile_named ident now i none = pure none
  reconcile_named ident now i (some (opid, op)) = reconcile_operation ident now i opid op

  abbrev pub reconcile_by : ℕ → ℕ → ℕ → Option (ℕ × PaymentOperation) → Action (Option (ℕ × ℤ))
  reconcile_by ident now i (some (opid, op)) = reconcile_operation ident now i opid op
  reconcile_by ident now i none = replied (p.payments.get_intent i) >>= λ pi db.
      reconcile_named ident now i (named_operation pi db) db

  -- `reconcile`; `none` is a payment that is not one of the control plane's.
  pub reconcile : ℕ → ℕ → ℕ → Action (Option (ℕ × ℤ))
  unfolding reconcile_operation
  reconcile ident now i db = reconcile_by ident now i (first_row (is_paid_by i) db.payments) db
