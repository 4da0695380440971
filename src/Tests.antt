-- ===== src/Tests.antt =====
-- Runs of the model on a small store, and the theorems at concrete inputs.
mod Money
mod Domains
mod Usage
mod Partners
mod Renewals
mod Accounts
mod Sandbox
mod Hosts
mod Registrar
mod Resources
mod Checkout
