-- ===== src/Billing/Webhook/Credits.antt =====
-- What a succeeded payment credits by a webhook.
use boathouse_cloud.Prelude.{
  ℕ, ◌≡◌, refl, ap, subst, ◌∙◌, Bool, true, false, Option, none, some, arith, if◌then◌else◌,
}
use boathouse_cloud.Prelude.Int.{◌+ℤ◌}
use boathouse_cloud.Prelude.Table.{find}
use boathouse_cloud.Prelude.Exec.{Ensures, Ensures-ok, Ensures-map, Ensures-bind, after_fetch}
use boathouse_cloud.Db.{Db, PaymentOperation, PaymentIntent, IntentStatus}
use boathouse_cloud.Db.Ledger.{has_ref}
use boathouse_cloud.Billing.Post.{balance}
use boathouse_cloud.Billing.Payments.{stripe_ref}
use boathouse_cloud.Billing.Payments.Once.{owed}
use boathouse_cloud.Billing.Payments.Checked.{
  IsChecked, complete_payment-both, resumed_balance, resumed_ledger,
}
use boathouse_cloud.Billing.Refill.{set_paused}
use boathouse_cloud.Billing.Returns.{named_operation}
use boathouse_cloud.Billing.Webhook.{credited, credit_named}

-- The payment is all of its operation's, and is credited once.
pub record IsCredited (pi : PaymentIntent) (before after : Db) : Type 0 where
  pub opid : ℕ
  pub op : PaymentOperation
  pub i : ℕ
  pub named : pi.operation ≡ some opid
  pub row : find opid before.payments ≡ some op
  pub intent : pi.id ≡ some i
  pub succeeded : pi.status ≡ IntentStatus.succeeded
  pub in_full : pi.amount_received ≡ some op.cents
  pub dollars : pi.is_usd ≡ true
  pub payer : pi.customer ≡ op.customer
  pub moved : balance op.workspace_id after ≡ balance op.workspace_id before +ℤ owed op i before
  pub recorded : has_ref (stripe_ref i) after.ledger ≡ true

pub named_operation-of :
    (pi : PaymentIntent) (db : Db) (opid : ℕ) (op : PaymentOperation)
    → named_operation (some pi) db ≡ some (opid, op)
    → (pi.operation ≡ some opid) × (find opid db.payments ≡ some op)
named_operation-of pi db opid op e = by_name pi.operation e
  where
    by_row :
        (k : ℕ) (o : Option PaymentOperation)
        → (elim o as (λ _. Option (ℕ × PaymentOperation)) [ none ↦ none | some v ↦ some (k, v) ])
          ≡ some (opid, op)
        → (k ≡ opid) × (o ≡ some op)
    by_row k none h = ground arith
    by_row k (some v) h = (ground arith, ground arith)

    by_name :
        (n : Option ℕ)
        → (elim n as (λ _. Option (ℕ × PaymentOperation)) [
          | none ↦ none
          | some k ↦ elim (find k db.payments) as (λ _. Option (ℕ × PaymentOperation)) [
            | none ↦ none
            | some v ↦ some (k, v)
          ]
        ])
          ≡ some (opid, op)
        → (n ≡ some opid) × (find opid db.payments ≡ some op)
    by_name none h = ground arith
    by_name (some k) h =
        let found = by_row k (find k db.payments) h in
        (ap some found.0, subst (λ x. find x db.payments ≡ some op) found.0 found.1)

module _ (now opid : ℕ) (op : PaymentOperation) (pi : PaymentIntent) (db : Db) where
  resumed-IsCredited :
      (t : Db) (b : Bool)
      → pi.operation ≡ some opid
      → find opid db.payments ≡ some op
      → IsChecked opid op pi
      → (i : ℕ) → pi.id ≡ some i
      → balance op.workspace_id t ≡ balance op.workspace_id db +ℤ owed op i db
      → has_ref (stripe_ref i) t.ledger ≡ true
      → IsCredited pi db (if b then set_paused false op.workspace_id t else t)
  resumed-IsCredited t b named row c i e moved recorded = record {
    opid = opid;
    op = op;
    i = i;
    named = named;
    row = row;
    intent = e;
    succeeded = c.succeeded;
    in_full = c.in_full;
    dollars = c.dollars;
    payer = c.payer;
    moved = resumed_balance b op.workspace_id t ∙ moved;
    recorded = ap (has_ref (stripe_ref i)) (resumed_ledger b op.workspace_id t) ∙ recorded;
  }

  pub credit-IsCredited :
      pi.operation ≡ some opid
      → find opid db.payments ≡ some op
      → Ensures
          (λ r s. (r ≡ credited) × IsCredited pi db s)
          (credit_named now pi (some (opid, op)) db)
  credit-IsCredited named row = Ensures-bind _ (
      Ensures-map
        (λ b t h. after_fetch _ _ _ λ ws there. Ensures-bind _ (
          Ensures-ok _ _ _ (
            Ensures-ok _ _ _
              (refl, resumed-IsCredited t _ named row h.0 h.1.0 h.1.1 h.1.2.moved h.1.2.recorded))))
        (complete_payment-both now opid op pi db pi.id refl))
