-- ===== src/Db.antt =====
-- The store of control/app/db.py: one record that holds the tables, the exceptions of the modules
-- that use it, and the statements on the ledger that these modules share.
mod Rows
mod Errors
pub mod Ledger
pub mod Credit
pub use Rows.*
pub use Errors.*
