-- ===== src/Tests/Usage.antt =====
-- Refills, metering and refunds on the small store.
use boathouse_cloud.Prelude.{ℕ, ◌≡◌, refl, ◌*◌, none, some, List, [], ◌∷◌, arith}
use boathouse_cloud.Prelude.Int.{pos}
use boathouse_cloud.Prelude.Exec.{ok, Ensures, Always}
use boathouse_cloud.Db.{Db, Workspace, PaymentReturn}
use boathouse_cloud.Db.Ledger.{IsBalanced}
use boathouse_cloud.Billing.Refill.{Month, plan_refill}
use boathouse_cloud.Billing.Refill.Cap.{Capped, plan_refill-Capped}
use boathouse_cloud.Billing.Rates.{Day, monthly_rate, charges, charges_month}
use boathouse_cloud.Referrals.Attribution.{tool_day_for}
use boathouse_cloud.Billing.Meter.{measured, meter_tool, meter_day, meter_once}
use boathouse_cloud.Billing.Meter.Books.{meter_once-IsBalanced}
use boathouse_cloud.Billing.Meter.Once.{Accrued, meter_tool-Accrued, meter_day_once}
use boathouse_cloud.Billing.Returns.{Processor, apply_return, reconcile}
use boathouse_cloud.Billing.Returns.Books.{reconcile-IsBalanced}
use boathouse_cloud.Billing.Returns.Held.{IsHeldBack, apply_return-IsHeldBack}
use boathouse_cloud.Tests.Money.{store, store-IsBalanced, workspace, refusing}

abbrev july : Month
july = record { name = 7; start = 0 }

-- The workspace refills 1000 cents, up to 3000 in a month, and no payment is open.
abbrev refilling : Workspace
refilling = record workspace {
  balance_cents = pos 200;
  autorefill_cents = 1000;
  autorefill_cap_cents = 3000;
}

abbrev low : Db
low = record store { workspaces = (1, refilling) ∷ []; payments = [] }

plan_refill-Capped_example :
    Ensures (λ r _. Capped 90 20 july 1 refilling low r) (plan_refill 90 20 july 1 refilling low)
plan_refill-Capped_example = plan_refill-Capped 90 20 july 1 refilling low refl

abbrev day : ℕ → Day
day n = record { name = n; month = 7; number = n; days = 31; stamp = 0 }

charges_month_example : charges workspace day 31 ≡ 1000
unfolding monthly_rate tool_day_for
charges_month_example =
    charges_month workspace day 31 1000 (omega arith) (λ n. refl) (λ n. refl) (λ n. refl)

abbrev tools : List (ℕ × ℕ)
tools = (80, 3 * 1073741824) ∷ []

meter_day_once_example :
    Ensures
      (λ _ t. meter_day 30 1 workspace (day 2) [] t ≡ ok none t)
      (meter_day 20 1 workspace (day 2) tools store)
meter_day_once_example = meter_day_once 1 (day 2) 20 workspace tools store 30 workspace []

meter_tool-Accrued_example :
    Ensures
      (Accrued 1 80 (day 2) (3 * 1073741824) store)
      (meter_tool (day 2) 1 (80, 3 * 1073741824) store)
meter_tool-Accrued_example = meter_tool-Accrued 1 80 (day 2) (3 * 1073741824) store

meter_once-IsBalanced_example :
    Always IsBalanced (meter_once refusing july (λ w. measured tools) (λ w. w) 20 (day 2) store)
meter_once-IsBalanced_example =
    meter_once-IsBalanced refusing july (λ w. measured tools) (λ w. w) 20 (day 2) store
      store-IsBalanced

abbrev return_row : PaymentReturn
return_row = record { workspace_id = 1; refunded_cents = 100; disputed_cents = 0; held_cents = 100 }

apply_return-IsHeldBack_example :
    Ensures (λ _ t. IsHeldBack 50 return_row store t) (apply_return 91 20 50 return_row store)
apply_return-IsHeldBack_example = apply_return-IsHeldBack 91 20 50 return_row store

abbrev pub processor : Processor
processor = record { payments = refusing; refunds = λ i. some []; disputes = λ i. some [] }

reconcile-IsBalanced_example : Always IsBalanced (reconcile processor 91 20 50 store)
reconcile-IsBalanced_example = reconcile-IsBalanced processor 91 20 50 store store-IsBalanced
