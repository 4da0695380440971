-- ===== src/Billing.antt =====
-- control/app/billing.py, control/app/payment_returns.py and control/app/checkout.py: the ledger,
-- payments by card, refunds and disputes, prices and metering.
pub mod Post
pub mod Payments
pub mod Execute
pub mod Topup
pub mod Refill
pub mod Rates
pub mod Meter
pub mod Returns
pub mod Checkout
pub mod Webhook
