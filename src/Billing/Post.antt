-- ===== src/Billing/Post.antt =====
-- `balance` and `post` of control/app/billing.py.
pub mod Books
use boathouse_cloud.Prelude.{ℕ, Bool, true, false, Option, none, some, ◌==◌, if◌then◌else◌}
use boathouse_cloud.Prelude.Int.{ℤ, pos, ◌+ℤ◌}
use boathouse_cloud.Prelude.Table.{find}
use boathouse_cloud.Prelude.Exec.{ok, err, atomically, pure, modify, ◌>>=◌, ◌>>◌}
use boathouse_cloud.Db.{Db, Workspace, Line, Kind, Memo, Ref, Error, Action}
use boathouse_cloud.Db.Ledger.{clashes, write_line}
use boathouse_cloud.Referrals.Sync.{sync}

abbrev pub balance_of : Option Workspace → ℤ
balance_of none = pos 0
balance_of (some ws) = ws.balance_cents

unfoldable pub balance : ℕ → Db → ℤ
balance w db = balance_of (find w db.workspaces)

-- The line that `post` appends to a workspace that exists.
abbrev pub posting : ℕ → ℕ → Kind → ℤ → Memo → Option Ref → Workspace → Line
posting now w kind amount memo ref ws = record {
  workspace_id = w;
  ts = now;
  kind = kind;
  amount_cents = amount;
  balance_after = ws.balance_cents +ℤ amount;
  memo = memo;
  ref = ref;
}

abbrev pub append_posting : ℕ → ℕ → Kind → ℤ → Memo → Option Ref → Option Workspace → Action ℤ
append_posting now w kind amount memo ref none db = err Error.crash db
append_posting now w kind amount memo ref (some ws) db =
    (do
      modify (write_line (posting now w kind amount memo ref ws))
      sync w
      pure (ws.balance_cents +ℤ amount))
      db

-- A repeated `ref` posts nothing.
pub post_body : ℕ → ℕ → Kind → ℤ → Memo → Option Ref → Action ℤ
unfolding balance
post_body now w kind amount memo ref db =
    if clashes ref db.ledger
    then ok (balance w db) db
    else append_posting now w kind amount memo ref (find w db.workspaces) db

unfoldable pub post : ℕ → ℕ → Kind → ℤ → Memo → Option Ref → Action ℤ
unfolding post_body
post now w kind amount memo ref = atomically (post_body now w kind amount memo ref)
