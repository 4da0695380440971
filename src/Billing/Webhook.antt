-- ===== src/Billing/Webhook.antt =====
-- `handle_webhook` of control/app/billing.py, and `reconcile` of control/app/checkout.py. Whether a
-- signature is the HMAC of the body is a parameter, as is the processor.
pub mod Credits
pub mod Authentic
use boathouse_cloud.Prelude.{
  ℕ, ◌+◌, Bool, true, false, not, ◌&&◌, ◌||◌, Option, none, some, ◌==◌, same, leb, is_some,
  if◌then◌else◌,
}
use boathouse_cloud.Prelude.Int.{ℤ}
use boathouse_cloud.Prelude.Table.{Table, find, update, first_row}
use boathouse_cloud.Prelude.Exec.{
  ok, err, pure, raise, raise_if, raise_when, modify, fetch, gets, ◌>>=◌, ◌>>◌,
}
use boathouse_cloud.Db.{
  Db, Workspace, PaymentOperation, PaymentIntent, StripeError, Code, Error, Action,
}
use boathouse_cloud.Billing.Payments.{stripe_error, complete_payment}
use boathouse_cloud.Billing.Refill.{resume_if_paid}
use boathouse_cloud.Billing.Returns.{Processor, named_operation, reconcile}
use boathouse_cloud.Billing.Checkout.{Pages, Outcome, result_of}

-- The events that the handler acts on: a refund or a dispute, with the intent and the charge that it
-- names; a succeeded payment; a saved card; anything else.
pub data Event : Type 0 where
  returned : Option ℕ → Option ℕ → Event
  paid : PaymentIntent → Event
  card_saved : ℕ → Option ℕ → Event
  other_event : Event

-- What a GET answers, field by field as it is read, or the failure.
pub data Field : Type 0 where
  field : Option ℕ → Field
  unread : StripeError → Field

pub record Hooks : Type 0 where
  pub processor : Processor
  pub charge_intent : ℕ → Field
  pub setup_card : ℕ → Field

-- `t=…,v1=…`: `stamp` is `none` where it is no integer, and `is_signed` whether some `v1` is the HMAC.
pub record Signature : Type 0 where
  pub stamp : Option ℕ
  pub is_signed : Bool

-- `abs(now - stamp) <= 600`
abbrev pub is_fresh : ℕ → Option ℕ → Bool
is_fresh now none = false
is_fresh now (some stamp) = leb now (stamp + 600) && leb stamp (now + 600)

pub data Handled : Type 0 where
  reconciled : Option (ℕ × ℤ) → Handled
  credited saved ignored : Handled

abbrev pub read_field : Field → Action (Option ℕ)
read_field (field o) = pure o
read_field (unread e) = raise (Error.stripe e)

-- the intent that the event names, or the one of its charge
abbrev pub returned_intent : Hooks → Option ℕ → Option ℕ → Action (Option ℕ)
returned_intent hooks (some i) charge = pure (some i)
returned_intent hooks none none = pure none
returned_intent hooks none (some charge) = read_field (hooks.charge_intent charge)

abbrev pub reconcile_known : Processor → ℕ → ℕ → Option ℕ → Action Handled
reconcile_known p ident now none = pure ignored
reconcile_known p ident now (some i) = reconcile p ident now i >>= λ r. pure (reconciled r)

abbrev pub credit_named : ℕ → PaymentIntent → Option (ℕ × PaymentOperation) → Action Handled
credit_named now pi none = pure ignored
credit_named now pi (some (opid, op)) = do
  b ← complete_payment now opid op (some pi)
  fetch (λ db. find op.workspace_id db.workspaces) Error.crash
  resume_if_paid op.workspace_id b
  pure credited

abbrev pub of_customer : Option ℕ → ℕ → Workspace → Bool
of_customer customer i ws = is_some customer && same ws.stripe_customer customer

abbrev pub save_setup : Option ℕ → Option (ℕ × Workspace) → Action Handled
save_setup none row = pure ignored
save_setup (some card) none = pure ignored
save_setup (some card) (some (w, ws)) = do
  modify (λ db. record db {
    workspaces = update w (λ old. record old { stripe_pm = some card }) db.workspaces;
  })
  pure saved

abbrev pub handle_event : Hooks → ℕ → ℕ → Event → Action Handled
handle_event hooks ident now (returned i charge) =
    returned_intent hooks i charge >>= reconcile_known hooks.processor ident now
handle_event hooks ident now (paid pi) = gets (named_operation (some pi)) >>= credit_named now pi
handle_event hooks ident now (card_saved setup customer) =
    read_field (hooks.setup_card setup) >>= λ card.
    gets (λ db. first_row (of_customer customer) db.workspaces) >>= save_setup card
handle_event hooks ident now other_event = pure ignored

-- `handle_webhook` with a secret that is set
unfoldable pub handle_webhook : Hooks → ℕ → ℕ → Signature → Event → Action Handled
handle_webhook hooks ident now signature event = do
  raise_if (not (is_fresh now signature.stamp) || not signature.is_signed)
      (stripe_error Code.rejected false)
  handle_event hooks ident now event

abbrev pub checkout_of : ℕ → Option PaymentOperation → Option (ℕ × PaymentOperation)
checkout_of w none = none
checkout_of w (some op) =
    if op.workspace_id == w
    then elim (op.checkout_id) [ none ↦ none | some i ↦ some (i, op) ]
    else none

-- `reconcile` of checkout.py
pub reconcile_checkout : Pages → ℕ → ℕ → ℕ → Action Outcome
reconcile_checkout p now w opid = do
  row ← fetch (λ db. checkout_of w (find opid db.payments)) (stripe_error Code.not_confirmed false)
  result_of p now opid row.1 (p.get_session row.0)
