-- ===== src/Billing/Execute/Hold.antt =====
-- A payment that was sent once is not given up because a retry was refused.
use boathouse_cloud.Prelude.{
  ℕ, ◌≡◌, refl, Bool, true, false, ◌||◌, Option, none, some, is_some, arith,
}
use boathouse_cloud.Prelude.Table.{find, find-update}
use boathouse_cloud.Prelude.Exec.{final}
use boathouse_cloud.Db.{Db, Workspace, PaymentOperation, PaymentStatus, Payload, StripeError, Code}
use boathouse_cloud.Billing.Execute.{
  failure, Provider, is_open, close_row, give_up, submit, submit_stored, handled, attempt,
  execute_by, execute_payment,
}

-- The row is still there, `pending` or `unknown`, and no money has moved.
pub record IsHeld (opid : ℕ) (db after : Db) : Type 0 where
  pub row : PaymentOperation
  pub found : find opid after.payments ≡ some row
  pub open_row : is_open row.status ≡ true
  pub same_workspaces : after.workspaces ≡ db.workspaces
  pub same_ledger : after.ledger ≡ db.ledger

module _ (provider : Provider) (refusal : StripeError) (bare : refusal.payment_intent ≡ none)
    (read : (i : ℕ) → provider.get_intent i ≡ failure refusal)
    (write : (i : ℕ) (p : Payload) → provider.create_intent i p ≡ failure refusal) (now w : ℕ)
    (ws : Workspace) (opid : ℕ) (op row : PaymentOperation) (db : Db)
    (found : find opid db.payments ≡ some row) (open_row : is_open row.status ≡ true) where
  unchanged : IsHeld opid db db
  unchanged = record {
    row = row;
    found = found;
    open_row = open_row;
    same_workspaces = refl;
    same_ledger = refl;
  }

  give_up-IsHeld : (e : StripeError) → IsHeld opid db (final (give_up opid true e db))
  give_up-IsHeld e = record {
    row = record row { status = PaymentStatus.unknown };
    found = ground (arith, find-update opid opid (close_row (e.ambiguous || true)) db.payments);
    open_row = refl;
    same_workspaces = refl;
    same_ledger = refl;
  }

  handled-IsHeld :
      (known : Option ℕ) (payload : Option Payload) (late : Bool)
      → IsHeld opid db (
          final
            (handled now opid op true (submit_stored provider now opid op known payload late db)))
  handled-IsHeld (some i) payload late = rw (read i) (rw (bare, handled) (give_up-IsHeld refusal))
  handled-IsHeld none none false = unchanged
  handled-IsHeld none payload true =
      give_up-IsHeld (record { code = Code.needs_support; ambiguous = true; payment_intent = none })
  handled-IsHeld none (some payload) false =
      rw (write opid payload) (rw (bare, handled) (give_up-IsHeld refusal))

  -- Where the row is open (`pending` or `unknown`) and every answer of the provider is a refusal that
  -- names no intent, definite or not, a retry leaves the row open and moves no money.
  pub execute_payment-IsHeld :
      (is_open op.status ≡ true)
      → IsHeld opid db (final (execute_payment provider now w ws opid op db))
  unfolding execute_payment attempt submit
  execute_payment-IsHeld again = go (is_some op.checkout_payload) (op.status) again
    where
      go :
          (checkout : Bool) (st : PaymentStatus)
          → is_open st ≡ true
          → IsHeld opid db (final (execute_by provider now w ws opid op checkout st db))
      go true st e = unchanged
      go false PaymentStatus.pending e = handled-IsHeld _ _ _
      go false PaymentStatus.unknown e = handled-IsHeld _ _ _
      go false PaymentStatus.quoted e = cc
      go false PaymentStatus.succeeded e = cc
      go false PaymentStatus.failed e = cc
