-- ===== src/Db/Errors.antt =====
-- The exceptions of the modelled modules: `StripeError` of control/app/billing.py,
-- `RegistrarError` of control/app/registrar.py, FastAPI's `HTTPException`, `ReferralError` of
-- control/app/referrals.py, and `crash` for what Python raises by itself (a missing row, a violated
-- constraint). A message is named by a code.
use boathouse_cloud.Prelude.{ℕ, Bool, Option}
use boathouse_cloud.Prelude.Exec
use boathouse_cloud.Db.Rows.{Db}

pub data IntentStatus : Type 0 where
  succeeded canceled requires_payment_method other : IntentStatus

-- A payment intent as the provider returns it, field by field as the program reads it.
pub record PaymentIntent : Type 0 where
  pub id : Option ℕ
  pub amount : Option ℕ
  pub amount_received : Option ℕ
  pub is_usd : Bool
  pub customer : Option ℕ
  pub has_metadata : Bool
  pub operation : Option ℕ
  pub status : IntentStatus
  pub payment_method : Option ℕ

pub data Code : Type 0 where
  no_processor unreachable rejected identity_mismatch not_confirmed provider_mismatch
        ledger_mismatch declined still_confirming checkout_only payment_failed quote_expired no_card
        previous_pending needs_support quote_mismatch bad_amount refill_waits refill_off bad_cap
        cap_reached bad_refill bad_limit bad_returns bad_flag namespace_conflict quote_not_found
        attached taken premium would_fail price_limit registrar_changed purchase_failed
        reconciliation_required purchase_pending allocated insufficient_funds purchase_uncertain
        proof_invalid not_found bad_expiry domain_inactive renewal_pending domain_expired
        notice_not_sent bad_renewal_proof provider_not_ready no_setting no_partner payout_shrank
        below_minimum payout_mismatch reference_taken reference_differs not_cancellable
        provider_code own_code other_partner not_new :
      Code

pub record StripeError : Type 0 where
  pub code : Code
  pub ambiguous : Bool
  pub payment_intent : Option PaymentIntent

pub record RegistrarError : Type 0 where
  pub code : Code
  pub uncertain : Bool
  pub replayed : Bool

pub data Error : Type 0 where
  crash : Error
  stripe : StripeError → Error
  registrar : RegistrarError → Error
  http : ℕ → Code → Error
  referral : Code → Error

-- An operation on the store.
abbrev pub Action : Type 0 → Type 0
Action A = Exec.Exec Db Error A
