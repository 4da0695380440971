-- ===== src/Billing/Topup.antt =====
-- Payments that an owner starts, in control/app/billing.py: `_new_payment`, `quote_topup` and
-- `charge_card`. Each call runs under the workspace's payment lock. Rows stand in the order of
-- `created`.
use boathouse_cloud.Prelude.{
  ℕ, ◌+◌, Bool, true, false, not, ◌&&◌, ◌||◌, Option, none, some, [], ◌∷◌, ◌++◌, ◌==◌, ltb, is_some,
  if◌then◌else◌,
}
use boathouse_cloud.Prelude.Int.{ℤ}
use boathouse_cloud.Prelude.Table.{Table, find, first_row, last_row}
use boathouse_cloud.Prelude.Exec.{pure, raise, raise_if, raise_when, modify, fetch, ◌>>=◌, ◌>>◌}
use boathouse_cloud.Db.{PaymentOperation, PaymentKind, PaymentStatus, Code, Error, Action}
use boathouse_cloud.Billing.Payments.{stripe_error}
use boathouse_cloud.Billing.Execute.{Provider, is_open, execute_payment}

abbrev pub is_manual : PaymentKind → Bool
is_manual PaymentKind.manual = true
is_manual PaymentKind.auto = false

abbrev pub is_quoted : PaymentStatus → Bool
is_quoted PaymentStatus.quoted = true
is_quoted _ = false

abbrev pub quoted_payment : ℕ → ℕ → ℕ → ℕ → PaymentKind → Option ℕ → PaymentOperation
quoted_payment now w cents by kind month = record {
  workspace_id = w;
  kind = kind;
  cents = cents;
  status = PaymentStatus.quoted;
  created = now;
  expires = now + 900;
  created_by = by;
  month = month;
  customer = none;
  payment_method = none;
  provider_id = none;
  submitted = none;
  payload = none;
  checkout_id = none;
  checkout_payload = none;
}

-- `_new_payment`; `ident` is the identifier that it draws, and CHECK(cents>0) refuses nothing.
abbrev pub new_payment : ℕ → ℕ → ℕ → ℕ → ℕ → PaymentKind → Option ℕ → Action (ℕ × PaymentOperation)
new_payment ident now w cents by kind month = do
  raise_when (λ db. is_some (find ident db.payments) || cents == 0) Error.crash
  modify (λ db. record db {
    payments = db.payments ++ (ident, quoted_payment now w cents by kind month) ∷ [];
  })
  pure (ident, quoted_payment now w cents by kind month)

-- DELETE FROM payment_operations WHERE p
abbrev pub without : (ℕ → PaymentOperation → Bool) → Table PaymentOperation → Table PaymentOperation
without p [] = []
without p ((j, v) ∷ t) = if p j v then without p t else (j, v) ∷ without p t

abbrev pub open_of : ℕ → ℕ → PaymentOperation → Bool
open_of w i op = w == op.workspace_id && is_open op.status

abbrev pub reusable : ℕ → ℕ → ℕ → ℕ → ℕ → PaymentOperation → Bool
reusable now w cents by i op =
    w == op.workspace_id
    && (is_manual op.kind
        && (is_quoted op.status
            && (op.cents == cents && (op.created_by == by && ltb now op.expires))))

abbrev pub stale : ℕ → ℕ → ℕ → PaymentOperation → Bool
stale now w i op = w == op.workspace_id && (is_quoted op.status && ltb op.expires now)

-- WHERE id=? AND workspace_id=? AND kind='manual'
abbrev pub manual_of : ℕ → Option PaymentOperation → Option PaymentOperation
manual_of w none = none
manual_of w (some op) = if op.workspace_id == w && is_manual op.kind then some op else none

abbrev pub own_manual : ℕ → ℕ → ℕ → Action (ℕ × PaymentOperation)
own_manual w opid cents = do
  op ← fetch (λ db. manual_of w (find opid db.payments)) (stripe_error Code.quote_mismatch false)
  raise_if (not (op.cents == cents)) (stripe_error Code.quote_mismatch false)
  pure (opid, op)

abbrev pub fresh_quote :
    ℕ → ℕ → ℕ → ℕ → ℕ → Option (ℕ × PaymentOperation) → Action (ℕ × PaymentOperation)
fresh_quote ident now w cents by (some op) = pure op
fresh_quote ident now w cents by none = do
  modify (λ db. record db { payments = without (stale now w) db.payments })
  new_payment ident now w cents by PaymentKind.manual none

abbrev pub recovered_quote :
    ℕ → ℕ → ℕ → ℕ → ℕ → Option (ℕ × PaymentOperation) → Action (ℕ × PaymentOperation)
recovered_quote ident now w cents by (some (i, op)) db =
    (do
      raise_if (not (is_manual op.kind) || not (op.cents == cents))
          (stripe_error Code.previous_pending false)
      pure (i, op))
      db
recovered_quote ident now w cents by none db =
    fresh_quote ident now w cents by (last_row (reusable now w cents by) db.payments) db

abbrev pub quote_by : ℕ → ℕ → ℕ → ℕ → ℕ → Option ℕ → Action (ℕ × PaymentOperation)
quote_by ident now w cents by (some opid) db = own_manual w opid cents db
quote_by ident now w cents by none db =
    recovered_quote ident now w cents by (first_row (open_of w) db.payments) db

-- `quote_topup`; `cents` is `none` where it is no integer.
pub quote_topup : ℕ → ℕ → ℕ → Option ℕ → ℕ → Option ℕ → Action (ℕ × PaymentOperation)
quote_topup ident now w none by opid = raise (stripe_error Code.bad_amount false)
quote_topup ident now w (some cents) by opid = do
  raise_if (ltb cents 500 || ltb 100000 cents) (stripe_error Code.bad_amount false)
  quote_by ident now w cents by opid

module _ (provider : Provider) where
  -- `charge_card`; `opid` is `none` where no quote is named.
  pub charge_card : ℕ → ℕ → ℕ → Option ℕ → Action ℤ
  charge_card now w cents none = raise (stripe_error Code.quote_mismatch false)
  charge_card now w cents (some opid) = do
    ws ← fetch (λ db. find w db.workspaces) Error.crash
    op ← own_manual w opid cents
    execute_payment provider now w ws op.0 op.1
