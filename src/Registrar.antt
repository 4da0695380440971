-- ===== src/Registrar.antt =====
-- The client of the registrar, control/app/registrar.py.
pub mod Call
pub mod Explained
