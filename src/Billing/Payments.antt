-- ===== src/Billing/Payments.antt =====
-- Payments by card in control/app/billing.py: how a provider's result settles an operation.
pub mod Settle
pub mod Once
pub mod Checked
use boathouse_cloud.Prelude.{
  ℕ, Bool, true, false, not, ◌&&◌, ◌||◌, Option, none, some, List, [], ◌∷◌, ◌==◌, same, is_some,
  get_or, if◌then◌else◌,
}
use boathouse_cloud.Prelude.Int.{ℤ, pos, ◌+ℤ◌, equal_ℤ}
use boathouse_cloud.Prelude.Table.{find, update, any_row}
use boathouse_cloud.Prelude.Exec.{
  atomically, pure, modify, raise_if, raise_when, fetch, or_raise, gets, ◌>>=◌, ◌>>◌,
}
use boathouse_cloud.Db.{
  Db, Workspace, Line, Kind, Memo, Ref, Prefix, PaymentOperation, PaymentKind, PaymentStatus,
  PaymentIntent, IntentStatus, StripeError, Code, Error, Action,
}
use boathouse_cloud.Db.Ledger.{write_line, find_ref}
use boathouse_cloud.Referrals.Usage.{is_succeeded}
use boathouse_cloud.Referrals.Sync.{sync}

abbrev pub stripe_error : Code → Bool → Error
stripe_error c ambiguous =
    Error.stripe (record { code = c; ambiguous = ambiguous; payment_intent = none })

-- `_validate_payment_identity`: the intent must be of this operation, amount, currency and customer.
-- `none` is a result that is not an object.
unfoldable pub matches : ℕ → PaymentOperation → Option PaymentIntent → Bool
matches opid op none = false
matches opid op (some pi) =
    same pi.amount (some op.cents)
    && (pi.is_usd
        && (same pi.customer op.customer
            && (is_some pi.id
                && (pi.has_metadata
                    && (same pi.operation (some opid)
                        && (not (is_some op.provider_id) || same pi.id op.provider_id))))))

abbrev pub status_of : Option PaymentIntent → IntentStatus
status_of none = IntentStatus.other
status_of (some pi) = pi.status

abbrev pub received : Option PaymentIntent → Option ℕ
received none = none
received (some pi) = pi.amount_received

abbrev pub intent_id : Option PaymentIntent → Option ℕ
intent_id none = none
intent_id (some pi) = pi.id

abbrev pub card_of : Option PaymentIntent → Option ℕ
card_of none = none
card_of (some pi) = pi.payment_method

abbrev pub has_succeeded : IntentStatus → Bool
has_succeeded IntentStatus.succeeded = true
has_succeeded _ = false

abbrev pub stripe_ref : ℕ → Ref
stripe_ref i = record { prefix = Prefix.stripe; name = i; day = 0 }

-- `existing and (other workspace or other amount)`
abbrev pub conflicts : PaymentOperation → Option Line → Bool
conflicts op none = false
conflicts op (some l) =
    not (l.workspace_id == op.workspace_id) || not (equal_ℤ l.amount_cents (pos op.cents))

abbrev pub payment_memo : PaymentOperation → Memo
payment_memo op = elim (op.kind) [
  | PaymentKind.auto ↦ Memo.auto_refill (get_or 0 op.month)
  | PaymentKind.manual ↦ Memo.plain
]

abbrev pub topup_line : ℕ → PaymentOperation → ℕ → Workspace → Line
topup_line now op i ws = record {
  workspace_id = op.workspace_id;
  ts = now;
  kind = Kind.topup;
  amount_cents = pos op.cents;
  balance_after = ws.balance_cents +ℤ pos op.cents;
  memo = payment_memo op;
  ref = some (stripe_ref i);
}

-- `if not existing:` credit the workspace
abbrev pub credit_once : ℕ → PaymentOperation → ℕ → Workspace → Option Line → Db → Db
credit_once now op i ws none db = write_line (topup_line now op i ws) db
credit_once now op i ws (some l) db = db

abbrev pub credited_balance : PaymentOperation → Workspace → Option Line → ℤ
credited_balance op ws none = ws.balance_cents +ℤ pos op.cents
credited_balance op ws (some l) = ws.balance_cents

abbrev pub mark_succeeded : ℕ → PaymentOperation → PaymentOperation
mark_succeeded i op = record op { status = PaymentStatus.succeeded; provider_id = some i }

-- the UNIQUE constraint on `provider_id`
abbrev pub is_taken : ℕ → ℕ → ℕ → PaymentOperation → Bool
is_taken opid i k op = not (k == opid) && same op.provider_id (some i)

-- UPDATE workspaces SET stripe_pm=? WHERE id=? AND stripe_customer=?, where the checkout asked for it
abbrev pub save_card : PaymentOperation → PaymentOperation → Option ℕ → Workspace → Workspace
save_card current op card ws =
    if is_some current.checkout_payload
      && (is_some card && (is_some op.customer && same ws.stripe_customer op.customer))
    then record ws { stripe_pm = card }
    else ws

pub record_payment :
    ℕ → ℕ → PaymentOperation → ℕ → Option ℕ → PaymentOperation → Workspace → Option Line → Action ℤ
record_payment now opid op i card current ws existing = do
  modify (credit_once now op i ws existing)
  raise_when (λ db. any_row (is_taken opid i) db.payments) Error.crash
  modify (λ db. record db { payments = update opid (mark_succeeded i) db.payments })
  sync op.workspace_id
  modify (λ db. record db {
    workspaces = update op.workspace_id (save_card current op card) db.workspaces;
  })
  pure (credited_balance op ws existing)

pub settle_payment : ℕ → ℕ → PaymentOperation → ℕ → Option ℕ → Action ℤ
settle_payment now opid op i card = do
  current ← fetch (λ db. find opid db.payments) Error.crash
  raise_if (is_some current.provider_id && not (same current.provider_id (some i)))
      (stripe_error Code.provider_mismatch true)
  ws ← fetch (λ db. find op.workspace_id db.workspaces) Error.crash
  existing ← gets (λ db. find_ref (stripe_ref i) db.ledger)
  raise_if (conflicts op existing) (stripe_error Code.ledger_mismatch true)
  record_payment now opid op i card current ws existing

-- `_complete_payment`: `op` is the row that the caller read, which may be older than the table's.
unfoldable pub complete_payment : ℕ → ℕ → PaymentOperation → Option PaymentIntent → Action ℤ
unfolding settle_payment record_payment
complete_payment now opid op pi = do
  raise_if (not (matches opid op pi)) (stripe_error Code.identity_mismatch true)
  raise_if (not (has_succeeded (status_of pi) && same (received pi) (some op.cents)))
      (stripe_error Code.not_confirmed true)
  i ← or_raise (intent_id pi) Error.crash
  atomically (settle_payment now opid op i (card_of pi))
