-- ===== src/Resources.antt =====
-- The storage limits of apps and their approval, control/app/resources.py.
pub mod Store
pub mod Sample
pub mod Capacity
pub mod Kept
pub mod Approved
