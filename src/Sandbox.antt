-- ===== src/Sandbox.antt =====
-- control/app/sandbox.py: the prefixes of ioctl commands that a tool may use.
pub mod Prefixes
pub mod Exact
