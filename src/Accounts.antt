-- ===== src/Accounts.antt =====
-- control/app/auth.py: accounts and their passwords, invitations, recovery, sessions, project keys and
-- the codes that stand in for them. Parameters stand for SHA-256, HMAC, scrypt, Fernet and JSON.
pub mod Store
pub mod Tokens
pub mod Signed
pub mod Spent
pub mod Invites
pub mod Reset
pub mod Sessions
pub mod Passwords
pub mod Evicted
pub mod Accepted
pub mod Current
pub mod Keys
pub mod Throttle
