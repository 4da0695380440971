-- ===== src/Prelude/Exec.antt =====
-- Statements that read and write a store and may raise, and the rules for reasoning about them.
mod Defs
mod Returns
mod Ends
unfoldable pub use Defs.{atomically, ◌>>=◌}
pub use Defs.{
  Run, ok, err, final, Exec, pure, raise, gets, or_raise, fetch, raise_if, raise_when, modify, ◌>>◌,
}
pub use Returns.*
pub use Ends.*
