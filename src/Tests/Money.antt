-- ===== src/Tests/Money.antt =====
-- A workspace that a partner referred, its top-up and its usage: billing.py and referrals.py.
use boathouse_cloud.Prelude.{
  ℕ, ◌+◌, ◌≤◌, ◌≡◌, refl, ap, sym, inl, inr, Bool-cases, true, false, ◌⊎◌, Option, none, some, [],
  ◌∷◌, arith, ◌==◌, if◌then◌else◌,
}
use boathouse_cloud.Prelude.Int.{ℤ, pos, neg, ◌+ℤ◌, ◌-ℤ◌}
use boathouse_cloud.Prelude.Exec.{Run, ok, err, final, atomically, ◌>>=◌, Ensures}
use boathouse_cloud.Db.{
  Db, Workspace, Line, Kind, Memo, Ref, Prefix, PaymentOperation, PaymentKind, PaymentStatus,
  PaymentIntent, IntentStatus, StripeError, Code, Error,
}
use boathouse_cloud.Db.Ledger.{IsBalanced}
use boathouse_cloud.Referrals.Usage.{drain, deposit, spend, replay_line, paid, paid_usage}
use boathouse_cloud.Referrals.Usage.Cover.{seen, paid_usage_bounds}
use boathouse_cloud.Referrals.Sync.{sync}
use boathouse_cloud.Referrals.Sync.Based.{IsBased}
use boathouse_cloud.Referrals.Sync.Exact.{IsExact, sync-IsExact}
use boathouse_cloud.Billing.Post.{balance, balance_of, post}
use boathouse_cloud.Billing.Post.Books.{post_moves, post_once}
use boathouse_cloud.Billing.Payments.{matches, complete_payment, stripe_ref}
use boathouse_cloud.Billing.Payments.Once.{Credited, complete_payment-Credited}
use boathouse_cloud.Billing.Execute.{failure, Provider, execute_payment}
use boathouse_cloud.Billing.Execute.Hold.{IsHeld, execute_payment-IsHeld}

abbrev pub workspace : Workspace
workspace = record {
  balance_cents = pos 700;
  paused = false;
  autorefill_cents = 0;
  autorefill_cap_cents = 0;
  stripe_customer = some 40;
  stripe_pm = some 41;
  owner_email = some 3;
  referred_by = some 7;
  discount_until = none;
}

abbrev line : Kind → ℤ → ℤ → Option Ref → Line
line k a b r = record {
  workspace_id = 1;
  ts = 0;
  kind = k;
  amount_cents = a;
  balance_after = b;
  memo = Memo.plain;
  ref = r;
}

abbrev meter_ref : ℕ → Ref
meter_ref day = record { prefix = Prefix.meter; name = 1; day = day }

abbrev payment : PaymentStatus → Option ℕ → ℕ → PaymentOperation
payment st i cents = record {
  workspace_id = 1;
  kind = PaymentKind.manual;
  cents = cents;
  status = st;
  created = 0;
  expires = 100;
  created_by = 3;
  month = none;
  customer = some 40;
  payment_method = some 41;
  provider_id = i;
  submitted = some 10;
  payload =
      some (record { amount = cents; customer = 40; payment_method = some 41; operation = 12 });
  checkout_id = none;
  checkout_payload = none;
}

abbrev pub open_payment : PaymentOperation
open_payment = payment PaymentStatus.pending none 500

-- A verified top-up of 1000 cents and 300 cents of usage; a second payment is open.
abbrev pub store : Db
store = record {
  workspaces = (1, workspace) ∷ [];
  ledger =
      line Kind.topup (pos 1000) (pos 1000) (some (stripe_ref 50))
      ∷ line Kind.charge (neg 300) (pos 700) (some (meter_ref 1))
      ∷ [];
  payments = (11, payment PaymentStatus.succeeded (some 50) 1000) ∷ (12, open_payment) ∷ [];
  returns = [];
  start_rowid = 0;
  revenue = [];
  earnings = [];
  payouts = [];
  purchases = [];
  domains = [];
  allocations = [];
  settings = [];
  renewals = [];
  notices = [];
  owners = [];
  worker_lease = 0;
  accruals = [];
  codes = [];
  customers = [];
  accounts = [];
}

pub store-IsBalanced : IsBalanced store
unfolding ◌+ℤ◌
store-IsBalanced = record {
  at = λ w v e. elim (Bool-cases (w == 1)) [
    | inr gone ↦ ground arith
    | inl here ↦
        let one : w ≡ 1 = ground arith in
        let row : ◌≡◌ {A = Option Workspace} (some workspace) (some v) = rw one at e in
        rw one (ap balance_of (sym row))
  ];
}

abbrev pub no_legacy : ℕ → ℤ
no_legacy email = pos 0

store-IsExact : IsExact no_legacy store
unfolding ◌+ℤ◌
store-IsExact = record { exact = λ m. refl; attributed = λ w m r e f. ground arith }

abbrev pub success : Option PaymentIntent
success = some (record {
  id = some 51;
  amount = some 500;
  amount_received = some 500;
  is_usd = true;
  customer = some 40;
  has_metadata = true;
  operation = some 12;
  status = IntentStatus.succeeded;
  payment_method = some 41;
})

abbrev outcome : Run Db Error ℤ → Option ℤ
outcome (ok b s) = some b
outcome (err e s) = none

-- The confirmed payment of 500 cents is credited.
completed : outcome (complete_payment 20 12 open_payment success store) ≡ some (pos 1200)
unfolding complete_payment matches sync paid_usage replay_line deposit spend drain paid atomically
    ◌>>=◌ ◌+ℤ◌ ◌-ℤ◌
completed = refl

usage_earned : paid_usage store 1 ≡ 300
unfolding paid_usage replay_line deposit spend drain paid
usage_earned = refl

-- A tenth of 300 cents.
synced : outcome (sync 1 store) ≡ some (pos 30)
unfolding sync paid_usage replay_line deposit spend drain paid ◌+ℤ◌ ◌-ℤ◌
synced = refl

complete_payment-Credited_example :
    Ensures (Credited open_payment 51 store) (complete_payment 20 12 open_payment success store)
complete_payment-Credited_example =
    complete_payment-Credited 20 12 open_payment success 51 store refl

paid_usage_bounds_example :
    (paid_usage store 1 ≤ (seen store 1).cash)
    × (paid_usage store 1 ≤ (seen store 1).eligible)
    × (((seen store 1).cash + (seen store 1).eligible ≤ paid_usage store 1 + (seen store 1).usage)
        ⊎ ((seen store 1).cash + (seen store 1).eligible
            ≤ paid_usage store 1 + (seen store 1).credit))
paid_usage_bounds_example = paid_usage_bounds store 1

sync-IsExact_example : Ensures (λ _ s. IsExact no_legacy s × IsBased 1 store s) (sync 1 store)
sync-IsExact_example = sync-IsExact no_legacy 1 store store-IsExact

posted :
    outcome (post 20 1 Kind.charge (neg 60) Memo.plain (some (meter_ref 2)) store) ≡ some (pos 640)
unfolding post sync paid_usage replay_line deposit spend drain paid atomically ◌>>=◌ ◌+ℤ◌ ◌-ℤ◌
posted = refl

post_moves_example :
    Ensures
      (λ b after.
        (b ≡ balance 1 store +ℤ neg 60)
        × ((v : ℕ)
            → balance v after ≡ (if v == 1 then balance 1 store +ℤ neg 60 else balance v store)))
      (post 20 1 Kind.charge (neg 60) Memo.plain (some (meter_ref 2)) store)
post_moves_example = post_moves 20 1 Kind.charge (neg 60) Memo.plain (some (meter_ref 2)) store refl

post_once_example :
    Ensures
      (λ b after. post 30 1 Kind.charge (neg 80) Memo.plain (some (meter_ref 2)) after ≡ ok b after)
      (post 20 1 Kind.charge (neg 60) Memo.plain (some (meter_ref 2)) store)
post_once_example =
    post_once 20 1 Kind.charge (neg 60) Memo.plain (meter_ref 2) store 30 Kind.charge (neg 80)
      Memo.plain

abbrev pub refusal : StripeError
refusal = record { code = Code.rejected; ambiguous = false; payment_intent = none }

abbrev pub refusing : Provider
refusing = record { get_intent = λ i. failure refusal; create_intent = λ i p. failure refusal }

execute_payment-IsHeld_example :
    IsHeld 12 store (final (execute_payment refusing 20 1 workspace 12 open_payment store))
execute_payment-IsHeld_example =
    execute_payment-IsHeld refusing refusal refl (λ i. refl) (λ i p. refl) 20 1 workspace 12
      open_payment open_payment store refl refl refl
