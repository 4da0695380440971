-- ===== src/Billing/Payments/Checked.antt =====
-- What a completed payment is, and what resuming a workspace keeps.
use boathouse_cloud.Prelude.{
  ℕ, ◌≡◌, refl, Bool, true, false, not, ◌&&◌, Option, none, some, arith, is_some, same, same-eq,
  if◌then◌else◌,
}
use boathouse_cloud.Prelude.Exec.{
  Ensures, Ensures-map, Ensures-both, Ensures-always, after_raise_if, after_or_raise,
}
use boathouse_cloud.Db.{Db, PaymentOperation, PaymentIntent, IntentStatus}
use boathouse_cloud.Billing.Post.{balance}
use boathouse_cloud.Billing.Payments.{matches, has_succeeded, complete_payment}
use boathouse_cloud.Billing.Payments.Once.{Credited, complete_payment-Credited, balance-update_same}
use boathouse_cloud.Billing.Refill.{set_paused}

-- A completed payment is the operation's own, and succeeded in full.
pub record IsChecked (opid : ℕ) (op : PaymentOperation) (pi : PaymentIntent) : Type 0 where
  pub succeeded : pi.status ≡ IntentStatus.succeeded
  pub in_full : pi.amount_received ≡ some op.cents
  pub dollars : pi.is_usd ≡ true
  pub payer : pi.customer ≡ op.customer
  pub identified : is_some pi.id ≡ true

checked_lem :
    (opid : ℕ) (op : PaymentOperation) (pi : PaymentIntent)
    → not (matches opid op (some pi)) ≡ false
    → not (has_succeeded pi.status && same pi.amount_received (some op.cents)) ≡ false
    → IsChecked opid op pi
unfolding matches
checked_lem opid op pi m s = record {
  succeeded = status pi.status (ground arith);
  in_full = same-eq pi.amount_received (some op.cents) (ground arith);
  dollars = ground arith;
  payer = same-eq pi.customer op.customer (ground arith);
  identified = ground arith;
}
  where
    status : (t : IntentStatus) → has_succeeded t ≡ true → t ≡ IntentStatus.succeeded
    status IntentStatus.succeeded e = refl
    status _ e = ground arith

-- A workspace that is resumed keeps its balance and the ledger.
pub resumed_balance :
    (b : Bool) (w : ℕ) (t : Db) → balance w (if b then set_paused false w t else t) ≡ balance w t
resumed_balance true w t =
    balance-update_same w w (λ ws. record ws { paused = false }) t (λ ws. refl)
resumed_balance false w t = refl

pub resumed_ledger :
    (b : Bool) (w : ℕ) (t : Db) → (if b then set_paused false w t else t).ledger ≡ t.ledger
resumed_ledger true w t = refl
resumed_ledger false w t = refl

module _ (now opid : ℕ) (op : PaymentOperation) (pi : PaymentIntent) (db : Db) where
  complete_payment-IsChecked :
      Ensures (λ _ _. IsChecked opid op pi) (complete_payment now opid op (some pi) db)
  unfolding complete_payment
  complete_payment-IsChecked = after_raise_if _ _ _ λ m. after_raise_if _ _ _ λ s.
      after_or_raise _ _ _
        λ i e. Ensures-always (λ _. IsChecked opid op pi) _ (checked_lem opid op pi m s)

  pub complete_payment-both :
      (o : Option ℕ)
      → pi.id ≡ o
      → Ensures
          (λ b t. IsChecked opid op pi × ((i : ℕ) × (pi.id ≡ some i) × Credited op i db b t))
          (complete_payment now opid op (some pi) db)
  complete_payment-both none e =
      Ensures-map (λ b t c. let named : is_some pi.id ≡ true = c.identified in ground arith)
        complete_payment-IsChecked
  complete_payment-both (some i) e =
      Ensures-both complete_payment-IsChecked
        (Ensures-map (λ b t h. (i, e, h)) (complete_payment-Credited now opid op (some pi) i db e))
