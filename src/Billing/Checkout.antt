-- ===== src/Billing/Checkout.antt =====
-- control/app/checkout.py: top-ups on the processor's own page, and `_ensure_customer` of
-- control/app/billing.py. The processor is a parameter. A call runs under the payment lock.
pub mod Settled
use boathouse_cloud.Prelude.{
  ℕ, ◌+◌, Bool, true, false, not, ◌&&◌, ◌||◌, Option, none, some, ◌==◌, same, ltb, leb, is_some,
  get_or, if◌then◌else◌,
}
use boathouse_cloud.Prelude.Int.{ℤ}
use boathouse_cloud.Prelude.Table.{find, update, any_row}
use boathouse_cloud.Prelude.Exec.{
  Run, ok, err, pure, raise, raise_if, raise_when, modify, fetch, gets, ◌>>=◌, ◌>>◌,
}
use boathouse_cloud.Db.{
  Db, Workspace, PaymentOperation, PaymentStatus, Payload, PaymentIntent, StripeError, Code, Error,
  Action,
}
use boathouse_cloud.Billing.Post.{balance}
use boathouse_cloud.Billing.Payments.{
  stripe_error, matches, status_of, has_succeeded, complete_payment,
}
use boathouse_cloud.Billing.Execute.{
  Provider, Reply, intent, failure, has_failed, is_done, is_final, other_open, day_less_hour,
  execute_payment,
}
use boathouse_cloud.Billing.Topup.{own_manual}
use boathouse_cloud.Billing.Refill.{resume_if_paid}

-- A session's `payment_intent`: absent, an identifier, or the intent itself.
pub data SessionIntent : Type 0 where
  absent : SessionIntent
  named : ℕ → SessionIntent
  inside : PaymentIntent → SessionIntent

-- A checkout session, field by field as the program reads it: `has_prefix` is whether the identifier
-- starts with `cs_`, `url_ok` whether the address is absent or one of the processor's.
pub record Session : Type 0 where
  pub is_payment : Bool
  pub customer : Option ℕ
  pub amount_total : Option ℕ
  pub is_usd : Bool
  pub operation : Option ℕ
  pub id : Option ℕ
  pub has_prefix : Bool
  pub payment_intent : SessionIntent
  pub is_expired : Bool
  pub url_ok : Bool

pub data SessionReply : Type 0 where
  session : Session → SessionReply
  refused : StripeError → SessionReply

-- A stored customer at the processor: alive, deleted or unknown, or any other failure.
pub data CustomerReply : Type 0 where
  alive gone : CustomerReply
  unreachable : StripeError → CustomerReply

pub data NewCustomer : Type 0 where
  created : ℕ → NewCustomer
  not_created : StripeError → NewCustomer

pub record Pages : Type 0 where
  pub payments : Provider
  pub get_session : ℕ → SessionReply
  pub create_session : ℕ → Payload → SessionReply
  pub get_customer : ℕ → CustomerReply
  pub new_customer : NewCustomer

pub data Outcome : Type 0 where
  succeeded : ℤ → Outcome
  expired pending : Outcome

abbrev pub fits : ℕ → PaymentOperation → Session → Bool
fits opid op s =
    s.is_payment
    && (same s.customer op.customer
        && (same s.amount_total (some op.cents)
            && (s.is_usd
                && (same s.operation (some opid)
                    && (not (is_some op.checkout_id) || same op.checkout_id s.id)))))

abbrev pub set_payment : ℕ → (PaymentOperation → PaymentOperation) → Db → Db
set_payment opid f db = record db { payments = update opid f db.payments }

-- `none` where no intent is known; an answer that is no object raises at its first use.
abbrev pub read_intent : Reply → Action (Option PaymentIntent)
read_intent (intent none) = raise Error.crash
read_intent (intent (some pi)) = pure (some pi)
read_intent (failure e) = raise (Error.stripe e)

abbrev pub session_intent : Provider → SessionIntent → Action (Option PaymentIntent)
session_intent p absent = pure none
session_intent p (named i) = read_intent (p.get_intent i)
session_intent p (inside pi) = pure (some pi)

abbrev pub fail_open : PaymentOperation → PaymentOperation
fail_open op = if is_done op.status then op else record op { status = PaymentStatus.failed }

abbrev pub unpaid : ℕ → PaymentOperation → Session → Option PaymentIntent → Action Outcome
unpaid opid op s pi = do
  raise_if (is_some pi && not (matches opid op pi)) (stripe_error Code.identity_mismatch true)
  if s.is_expired && (not (is_some pi) || has_failed (status_of pi))
      then (modify (set_payment opid fail_open) >> pure expired)
      else (raise_if (not s.url_ok) (stripe_error Code.provider_mismatch true) >> pure pending)

abbrev pub paid_session : ℕ → ℕ → PaymentOperation → Option PaymentIntent → Action Outcome
paid_session now opid op pi = do
  b ← complete_payment now opid op pi
  fetch (λ db. find op.workspace_id db.workspaces) Error.crash
  resume_if_paid op.workspace_id b
  pure (succeeded b)

abbrev pub for_checkout : ℕ → ℕ → ℕ → PaymentOperation → PaymentOperation
for_checkout now opid customer op = record op {
  status = PaymentStatus.pending;
  submitted = some now;
  customer = some customer;
  checkout_payload =
      some (record {
        amount = op.cents;
        customer = customer;
        payment_method = none;
        operation = opid;
      });
}

abbrev pub make_customer : ℕ → NewCustomer → Action ℕ
make_customer w (created c) = do
  modify (λ db. record db {
    workspaces =
        update w (λ ws. record ws { stripe_customer = some c; stripe_pm = none }) db.workspaces;
  })
  pure c
make_customer w (not_created e) = raise (Error.stripe e)

abbrev pub to_unknown : PaymentOperation → PaymentOperation
to_unknown op = if is_final op.status then op else record op { status = PaymentStatus.unknown }

-- `except StripeError`
abbrev pub noted : ℕ → Run Db Error Outcome → Run Db Error Outcome
noted opid (err (Error.stripe e) db) = err (Error.stripe e) (set_payment opid to_unknown db)
noted opid (err e db) = err e db
noted opid (ok r db) = ok r db

module _ (p : Pages) where
  -- `_result`
  unfoldable pub session_result : ℕ → ℕ → PaymentOperation → Session → Action Outcome
  session_result now opid op s = do
    raise_if (not (fits opid op s)) (stripe_error Code.identity_mismatch true)
    raise_if (not s.has_prefix) (stripe_error Code.identity_mismatch true)
    modify (set_payment opid (λ o. record o { checkout_id = s.id }))
    pi ← session_intent p.payments s.payment_intent
    if has_succeeded (status_of pi) then paid_session now opid op pi else unpaid opid op s pi

  abbrev pub result_of : ℕ → ℕ → PaymentOperation → SessionReply → Action Outcome
  result_of now opid op (session s) = session_result now opid op s
  result_of now opid op (refused e) = raise (Error.stripe e)

  abbrev pub kept_customer : ℕ → ℕ → CustomerReply → Action ℕ
  kept_customer w c alive = pure c
  kept_customer w c gone = make_customer w p.new_customer
  kept_customer w c (unreachable e) = raise (Error.stripe e)

  -- `_ensure_customer`
  abbrev pub ensure_customer : ℕ → Option ℕ → Action ℕ
  ensure_customer w none = make_customer w p.new_customer
  ensure_customer w (some c) = kept_customer w c (p.get_customer c)

  -- A quote becomes pending, with its immutable payload, before a page is asked for.
  pub begin_checkout : ℕ → ℕ → Workspace → ℕ → PaymentOperation → Action PaymentOperation
  begin_checkout now w ws opid op = do
    raise_if (ltb op.expires now) (stripe_error Code.quote_expired false)
    raise_when (λ db. any_row (other_open w opid) db.payments)
        (stripe_error Code.previous_pending true)
    customer ← ensure_customer w ws.stripe_customer
    modify (set_payment opid (for_checkout now opid customer))
    fetch (λ db. find opid db.payments) Error.crash

  abbrev pub ask_session : ℕ → ℕ → PaymentOperation → Option ℕ → Option Payload → Action Outcome
  ask_session now opid op (some i) payload = result_of now opid op (p.get_session i)
  ask_session now opid op none none = raise Error.crash
  ask_session now opid op none (some payload) =
      raise_if (leb (get_or 0 op.submitted + day_less_hour) now)
        (stripe_error Code.needs_support true)
      >> result_of now opid op (p.create_session opid payload)

  abbrev pub open_page : ℕ → ℕ → Workspace → ℕ → PaymentOperation → Option Payload → Action Outcome
  open_page now w ws opid op none db =
      (execute_payment p.payments now w ws opid op >>= λ b. pure (succeeded b)) db
  open_page now w ws opid op (some payload) db =
      noted opid (ask_session now opid op op.checkout_id (some payload) db)

  abbrev pub start_by : ℕ → ℕ → Workspace → ℕ → PaymentOperation → PaymentStatus → Action Outcome
  start_by now w ws opid op PaymentStatus.succeeded = gets (balance w) >>= λ b. pure (succeeded b)
  start_by now w ws opid op PaymentStatus.failed = raise (stripe_error Code.payment_failed false)
  start_by now w ws opid op PaymentStatus.quoted =
      begin_checkout now w ws opid op >>= λ sent. open_page now w ws opid sent sent.checkout_payload
  start_by now w ws opid op _ = open_page now w ws opid op op.checkout_payload

  -- `start`
  pub start : ℕ → ℕ → ℕ → ℕ → Action Outcome
  unfolding begin_checkout session_result
  start now w cents opid = do
    ws ← fetch (λ db. find w db.workspaces) Error.crash
    op ← own_manual w opid cents
    start_by now w ws op.0 op.1 (op.1).status
