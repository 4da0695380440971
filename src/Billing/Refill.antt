-- ===== src/Billing/Refill.antt =====
-- Refills in control/app/billing.py: `auto_refill`, `set_auto_refill`, and `pause` and `resume`
-- without Docker.
pub mod Cap
pub mod Books
use boathouse_cloud.Prelude.{
  ℕ, ◌+◌, ◌*◌, Bool, true, false, not, ◌&&◌, ◌||◌, Option, none, some, List, [], ◌∷◌, ◌++◌, ◌==◌,
  same, ltb, leb, min, is_some, if◌then◌else◌,
}
use boathouse_cloud.Prelude.Int.{ℤ, pos, ◌+ℤ◌, ◌-ℤ◌, ltb_ℤ, nonneg}
use boathouse_cloud.Prelude.Table.{Table, find, update, first_row}
use boathouse_cloud.Prelude.Exec.{
  ok, err, pure, raise, raise_if, raise_when, modify, fetch, gets, ◌>>=◌, ◌>>◌,
}
use boathouse_cloud.Db.{
  Db, Workspace, Line, Kind, Memo, PaymentOperation, PaymentKind, PaymentStatus, Code, Error,
  Action,
}
use boathouse_cloud.Billing.Post.{balance}
use boathouse_cloud.Billing.Payments.{stripe_error}
use boathouse_cloud.Billing.Execute.{Provider, is_open, execute_payment}
use boathouse_cloud.Billing.Topup.{is_manual, new_payment, open_of}

abbrev pub refill_below : ℤ
refill_below = pos 500

abbrev pub pause_at : ℤ
pause_at = pos 0

-- the rows of `pause` and `resume`
abbrev pub set_paused : Bool → ℕ → Db → Db
set_paused b w db = record db {
  workspaces = update w (λ ws. record ws { paused = b }) db.workspaces;
}

abbrev pub is_auto : Memo → Bool
is_auto (Memo.auto_refill m) = true
is_auto _ = false

abbrev pub is_topup : Kind → Bool
is_topup Kind.topup = true
is_topup _ = false

-- SUM(amount_cents) … kind='topup' AND memo LIKE 'auto-refill%' AND ts>=?
abbrev pub refilled : ℕ → ℕ → List Line → ℤ
refilled w start [] = pos 0
refilled w start (l ∷ ls) =
    (if w == l.workspace_id && (is_topup l.kind && (is_auto l.memo && leb start l.ts))
      then l.amount_cents
      else pos 0)
    +ℤ refilled w start ls

-- The calendar's month of a time, and the time at which it starts.
pub record Month : Type 0 where
  pub name : ℕ
  pub start : ℕ

abbrev pub refill_amount : ℕ → Month → Workspace → Db → ℕ
refill_amount w month ws db =
    min ws.autorefill_cents
      (nonneg (pos ws.autorefill_cap_cents -ℤ refilled w month.start db.ledger))

-- `meter`, which starts a refill
abbrev pub meter_name : ℕ
meter_name = 0

-- The payment to execute: the open one, a new one, or none where no refill is due.
abbrev pub plan_new : ℕ → ℕ → Month → ℕ → Workspace → Action (Option (ℕ × PaymentOperation))
plan_new ident now month w ws db =
    if ws.autorefill_cents == 0 || not (ltb_ℤ (balance w db) refill_below)
    then ok none db
    else (do
      raise_if (ws.autorefill_cap_cents == 0) (stripe_error Code.bad_cap false)
      amount ← gets (refill_amount w month ws)
      raise_if (ltb amount 50) (stripe_error Code.cap_reached false)
      op ← new_payment ident now w amount meter_name PaymentKind.auto (some month.name)
      pure (some op))
        db

abbrev pub plan_by :
    ℕ
    → ℕ
    → Month
    → ℕ
    → Workspace
    → Option (ℕ × PaymentOperation)
    → Action (Option (ℕ × PaymentOperation))
plan_by ident now month w ws (some (i, op)) = do
  raise_if (is_manual op.kind) (stripe_error Code.refill_waits true)
  raise_if (ws.autorefill_cents == 0 && not (is_some op.provider_id))
      (stripe_error Code.refill_off true)
  pure (some (i, op))
plan_by ident now month w ws none = plan_new ident now month w ws

pub plan_refill : ℕ → ℕ → Month → ℕ → Workspace → Action (Option (ℕ × PaymentOperation))
plan_refill ident now month w ws db =
    plan_by ident now month w ws (first_row (open_of w) db.payments) db

abbrev pub is_paused : ℕ → Db → Bool
is_paused w db = elim (find w db.workspaces) [ none ↦ false | some ws ↦ ws.paused ]

abbrev pub resume_if_paid : ℕ → ℤ → Action ℤ
resume_if_paid w b db =
    ok b (if is_paused w db && ltb_ℤ pause_at b then set_paused false w db else db)

module _ (provider : Provider) where
  abbrev pub execute_refill : ℕ → ℕ → Workspace → Option (ℕ × PaymentOperation) → Action ℤ
  execute_refill now w ws none = gets (balance w)
  execute_refill now w ws (some (i, op)) =
      execute_payment provider now w ws i op >>= λ b. resume_if_paid w b

  -- `auto_refill`
  pub auto_refill : ℕ → ℕ → Month → ℕ → Action ℤ
  unfolding plan_refill
  auto_refill ident now month w = do
    ws ← fetch (λ db. find w db.workspaces) Error.crash
    op ← plan_refill ident now month w ws
    execute_refill now w ws op

abbrev pub set_refill : ℕ → ℕ → Workspace → Workspace
set_refill cents cap ws = record ws {
  autorefill_cents = cents;
  autorefill_cap_cents = if cents == 0 then 0 else cap;
}

-- `set_auto_refill`; `none` is no integer, or a negative one.
pub set_auto_refill : ℕ → Option ℕ → Option ℕ → Action (Unit {0})
set_auto_refill w none cap = raise (stripe_error Code.bad_refill false)
set_auto_refill w (some cents) none = do
  raise_if (not (cents == 0) && (ltb cents 500 || ltb 100000 cents))
      (stripe_error Code.bad_refill false)
  raise (stripe_error Code.bad_limit false)
set_auto_refill w (some cents) (some cap) = do
  raise_if (not (cents == 0) && (ltb cents 500 || ltb 100000 cents))
      (stripe_error Code.bad_refill false)
  raise_if (not (cents == 0) && ltb cap 50) (stripe_error Code.bad_limit false)
  fresh ← fetch (λ db. find w db.workspaces) Error.crash
  raise_if (not (cents == 0) && not (is_some fresh.stripe_pm)) (stripe_error Code.no_card false)
  modify (λ db. record db { workspaces = update w (set_refill cents cap) db.workspaces })
