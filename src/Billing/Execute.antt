-- ===== src/Billing/Execute.antt =====
-- The one provider write of a payment, in control/app/billing.py: `_payment_result` and
-- `_execute_payment`. The provider is a parameter: what it answers to a GET of an intent, and to
-- the POST of a payload under the operation's idempotency key.
pub mod Books
pub mod Hold
use boathouse_cloud.Prelude.{
  ℕ, ◌+◌, ◌*◌, ◌≤◌, Bool, true, false, not, ◌&&◌, ◌||◌, Option, none, some, ◌==◌, ltb, leb, same,
  is_some, get_or, if◌then◌else◌,
}
use boathouse_cloud.Prelude.Int.{ℤ}
use boathouse_cloud.Prelude.Table.{find, update, any_row}
use boathouse_cloud.Prelude.Exec.{
  Run, ok, err, pure, raise, modify, raise_if, raise_when, fetch, gets, ◌>>=◌, ◌>>◌,
}
use boathouse_cloud.Db.{
  Db, Workspace, PaymentOperation, PaymentStatus, Payload, PaymentIntent, IntentStatus, StripeError,
  Code, Error, Action,
}
use boathouse_cloud.Billing.Post.{balance}
use boathouse_cloud.Billing.Payments.{
  stripe_error, matches, status_of, has_succeeded, intent_id, is_taken, complete_payment,
}

-- What `_stripe` returns or raises.
pub data Reply : Type 0 where
  intent : Option PaymentIntent → Reply
  failure : StripeError → Reply

pub record Provider : Type 0 where
  pub get_intent : ℕ → Reply
  pub create_intent : ℕ → Payload → Reply

abbrev pub has_failed : IntentStatus → Bool
has_failed IntentStatus.canceled = true
has_failed IntentStatus.requires_payment_method = true
has_failed _ = false

abbrev pub is_final : PaymentStatus → Bool
is_final PaymentStatus.succeeded = true
is_final PaymentStatus.failed = true
is_final _ = false

abbrev pub is_open : PaymentStatus → Bool
is_open PaymentStatus.pending = true
is_open PaymentStatus.unknown = true
is_open _ = false

abbrev pub is_done : PaymentStatus → Bool
is_done PaymentStatus.succeeded = true
is_done _ = false

-- UPDATE … SET status=?,provider_id=COALESCE(?,provider_id) WHERE status!='succeeded'
abbrev pub note_result : PaymentStatus → Option ℕ → PaymentOperation → PaymentOperation
note_result st i op =
    if is_done op.status
    then op
    else record op { status = st; provider_id = elim i [ none ↦ op.provider_id | some j ↦ some j ] }

abbrev pub unresolved : IntentStatus → PaymentStatus
unresolved s = if has_failed s then PaymentStatus.failed else PaymentStatus.unknown

abbrev pub outcome_error : IntentStatus → Error
outcome_error s =
    if has_failed s
    then stripe_error Code.declined false
    else stripe_error Code.still_confirming true

abbrev pub clashes_with : ℕ → Option ℕ → Db → Bool
clashes_with opid none db = false
clashes_with opid (some i) db = any_row (is_taken opid i) db.payments

pub note_unresolved : ℕ → Option PaymentIntent → Action ℤ
note_unresolved opid pi = do
  raise_when (clashes_with opid (intent_id pi)) Error.crash
  modify (λ db. record db {
    payments = update opid (note_result (unresolved (status_of pi)) (intent_id pi)) db.payments;
  })
  raise (outcome_error (status_of pi))

-- `_payment_result`
pub payment_result : ℕ → ℕ → PaymentOperation → Option PaymentIntent → Action ℤ
unfolding note_unresolved
payment_result now opid op pi = do
  raise_if (not (matches opid op pi)) (stripe_error Code.identity_mismatch true)
  if has_succeeded (status_of pi) then complete_payment now opid op pi else note_unresolved opid pi

abbrev pub day_less_hour : ℕ
day_less_hour = 23 * 3600

-- UPDATE … SET status=? WHERE id=? AND status NOT IN ('succeeded','failed'); raise
abbrev pub close_row : Bool → PaymentOperation → PaymentOperation
close_row uncertain op =
    if is_final op.status
    then op
    else record op { status = if uncertain then PaymentStatus.unknown else PaymentStatus.failed }

abbrev pub give_up : ℕ → Bool → StripeError → Action ℤ
give_up opid submitted e db =
    err (Error.stripe e)
      (record db { payments = update opid (close_row (e.ambiguous || submitted)) db.payments })

abbrev pub retried : ℕ → Bool → Run Db Error ℤ → Run Db Error ℤ
retried opid submitted (err (Error.stripe e) db) = give_up opid submitted e db
retried opid submitted (err e db) = err e db
retried opid submitted (ok b db) = ok b db

-- the `except StripeError`: an intent that came with the error is settled first
abbrev pub handled : ℕ → ℕ → PaymentOperation → Bool → Run Db Error ℤ → Run Db Error ℤ
handled now opid op submitted (ok b db) = ok b db
handled now opid op submitted (err (Error.stripe e) db) = elim (e.payment_intent) [
  | none ↦ give_up opid submitted e db
  | some pi ↦ retried opid submitted (payment_result now opid op (some pi) db)
]
handled now opid op submitted (err e db) = err e db

-- SELECT 1 … WHERE workspace_id=? AND id!=? AND status IN ('pending','unknown')
abbrev pub other_open : ℕ → ℕ → ℕ → PaymentOperation → Bool
other_open w opid k op = w == op.workspace_id && (not (k == opid) && is_open op.status)

abbrev pub no_card : Workspace → Bool
no_card ws = not (is_some ws.stripe_pm) || not (is_some ws.stripe_customer)

abbrev pub submitted : ℕ → ℕ → Workspace → PaymentOperation → PaymentOperation
submitted now opid ws op = record op {
  status = PaymentStatus.pending;
  submitted = some now;
  customer = ws.stripe_customer;
  payment_method = ws.stripe_pm;
  payload = some (record {
    amount = op.cents;
    customer = get_or 0 ws.stripe_customer;
    payment_method = ws.stripe_pm;
    operation = opid;
  });
}

-- A quoted payment becomes pending, with its immutable payload, before anything is sent.
pub begin_payment : ℕ → ℕ → Workspace → ℕ → PaymentOperation → Action PaymentOperation
begin_payment now w ws opid op = do
  raise_if (ltb op.expires now) (stripe_error Code.quote_expired false)
  raise_if (no_card ws) (stripe_error Code.no_card false)
  raise_when (λ db. any_row (other_open w opid) db.payments)
      (stripe_error Code.previous_pending true)
  modify (λ db. record db { payments = update opid (submitted now opid ws) db.payments })
  fetch (λ db. find opid db.payments) Error.crash

module _ (provider : Provider) where
  abbrev pub settle_reply : ℕ → ℕ → PaymentOperation → Reply → Action ℤ
  settle_reply now opid op (intent pi) = payment_result now opid op pi
  settle_reply now opid op (failure e) = raise (Error.stripe e)

  -- the body of the `try`: the intent is read if it is known; otherwise the stored payload is sent
  -- again while the provider still replays it
  abbrev pub submit_stored :
      ℕ → ℕ → PaymentOperation → Option ℕ → Option Payload → (late : Bool) → Action ℤ
  submit_stored now opid op (some i) payload late = settle_reply now opid op (provider.get_intent i)
  submit_stored now opid op none payload true = raise (stripe_error Code.needs_support true)
  submit_stored now opid op none none false = raise Error.crash
  submit_stored now opid op none (some payload) false =
      settle_reply now opid op (provider.create_intent opid payload)

  pub submit : ℕ → ℕ → PaymentOperation → Action ℤ
  submit now opid op =
      submit_stored now opid op op.provider_id op.payload
        (leb (get_or 0 op.submitted + day_less_hour) now)

  pub attempt : ℕ → ℕ → PaymentOperation → Bool → Action ℤ
  unfolding payment_result submit
  attempt now opid op submitted db = handled now opid op submitted (submit now opid op db)

  abbrev pub execute_by :
      ℕ → ℕ → Workspace → ℕ → PaymentOperation → (checkout : Bool) → PaymentStatus → Action ℤ
  execute_by now w ws opid op true st = raise (stripe_error Code.checkout_only true)
  execute_by now w ws opid op false PaymentStatus.succeeded = gets (balance w)
  execute_by now w ws opid op false PaymentStatus.failed =
      raise (stripe_error Code.payment_failed false)
  execute_by now w ws opid op false PaymentStatus.quoted =
      begin_payment now w ws opid op >>= λ sent. attempt now opid sent false
  execute_by now w ws opid op false PaymentStatus.pending = attempt now opid op true
  execute_by now w ws opid op false PaymentStatus.unknown = attempt now opid op true

  -- `_execute_payment` on a row of the workspace `w`, whose own row is `ws`.
  pub execute_payment : ℕ → ℕ → Workspace → ℕ → PaymentOperation → Action ℤ
  unfolding begin_payment attempt
  execute_payment now w ws opid op =
      execute_by now w ws opid op (is_some op.checkout_payload) op.status
