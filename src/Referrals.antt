-- ===== src/Referrals.antt =====
-- control/app/referrals.py: which usage earns commission, what a partner has earned, and payouts.
pub mod Usage
pub mod Sync
pub mod Payouts
pub mod Attribution
