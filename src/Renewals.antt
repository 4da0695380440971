-- ===== src/Renewals.antt =====
-- control/app/domain_renewals.py: prepaid domain renewals. The registrar, mail, the platform's own
-- domain and the host's workspace are parameters.
pub mod Notices
pub mod Policy
pub mod Plan
pub mod Reserve
pub mod Execute
pub mod Worker
pub mod Credit
pub mod Held
pub mod Sent
pub mod Permitted
pub mod Outbox
pub mod Replan
pub mod Visited
pub mod Books
