-- ===== src/Hosts.antt =====
-- control/app/hosts.py: which workspace, and which face of it, a host name belongs to.
pub mod Resolve
pub mod Isolated
