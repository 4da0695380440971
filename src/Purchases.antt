-- ===== src/Purchases.antt =====
-- control/app/domain_payments.py: domain purchases paid from reserved workspace credit. Parameters
-- stand for the registrar (its account and its answers) and for SQL's LIKE: `under a b` is
-- `a LIKE '%.' || b`.
pub mod Reserve
pub mod Quote
pub mod Finish
pub mod Money
pub mod Holding
pub mod Outcome
pub mod Sound
