-- ===== src/Billing/Meter.antt =====
-- `_settle` and `meter_once` of control/app/billing.py. Docker and Postgres are parameters: for each
-- workspace, which tools run and how many bytes each stores (`round(gb * 1024**3)`).
pub mod Books
pub mod Once
use boathouse_cloud.Prelude.{
  ℕ, ◌+◌, ◌-◌, ◌*◌, ◌/◌, ◌^◌, Bool, true, false, not, ◌&&◌, ◌||◌, Option, none, some, List, [], ◌∷◌,
  ◌++◌, ◌==◌, is_some, if◌then◌else◌,
}
use boathouse_cloud.Prelude.Int.{ℤ, pos, ◌+ℤ◌, ◌-ℤ◌, ltb_ℤ}
use boathouse_cloud.Prelude.Table.{Table, find}
use boathouse_cloud.Prelude.Exec.{
  Run, ok, err, pure, raise, raise_when, modify, fetch, gets, atomically, ◌>>=◌, ◌>>◌,
}
use boathouse_cloud.Db.{Db, Workspace, Line, Kind, Memo, Ref, Prefix, Accrual, Error, Action}
use boathouse_cloud.Db.Ledger.{write_line, clashes, has_ref}
use boathouse_cloud.Referrals.Sync.{sync}
use boathouse_cloud.Billing.Post.{balance}
use boathouse_cloud.Billing.Execute.{Provider}
use boathouse_cloud.Billing.Refill.{Month, refill_below, pause_at, set_paused, auto_refill}
use boathouse_cloud.Billing.Rates.{Day, daily_rate}

-- What runs in a workspace: nothing, something that could not be measured, or tools, each with its
-- resource key and its bytes.
pub data Usage : Type 0 where
  idle unmeasured : Usage
  measured : List (ℕ × ℕ) → Usage

abbrev pub gigabyte : ℕ
gigabyte = 1024 ^ 3

-- `max(0, bytes - included_gb * 1024**3)`
abbrev pub extra_bytes : ℕ → ℕ
extra_bytes bytes = bytes - gigabyte

abbrev pub storage_gb_month : ℕ
storage_gb_month = 25

abbrev pub denominator : Day → ℕ
denominator day = gigabyte * day.days

abbrev pub is_accrual : ℕ → ℕ → ℕ → Accrual → Bool
is_accrual w key month a = a.workspace_id == w && (a.resource_key == key && a.month == month)

abbrev pub find_accrual : ℕ → ℕ → ℕ → List Accrual → Option Accrual
find_accrual w key month [] = none
find_accrual w key month (a ∷ t) =
    if is_accrual w key month a then some a else find_accrual w key month t

abbrev pub set_accrual : ℕ → ℕ → ℕ → ℕ → ℕ → List Accrual → List Accrual
set_accrual w key month n total [] = []
set_accrual w key month n total (a ∷ t) =
    if is_accrual w key month a
    then record a { byte_cent_days = n; charged_cents = total } ∷ t
    else a ∷ set_accrual w key month n total t

-- INSERT OR IGNORE INTO storage_accrual
abbrev pub with_accrual : ℕ → ℕ → ℕ → List Accrual → List Accrual
with_accrual w key month t =
    if is_some (find_accrual w key month t)
    then t
    else t
      ++ record {
        workspace_id = w;
        resource_key = key;
        month = month;
        byte_cent_days = 0;
        charged_cents = 0;
      }
        ∷ []

abbrev pub accrued : Accrual → ℕ → ℕ
accrued a bytes = a.byte_cent_days + extra_bytes bytes * storage_gb_month

-- The body of the loop over the measured tools: what the tool adds to the day's charge.
pub meter_tool : Day → ℕ → ℕ × ℕ → Action ℤ
meter_tool day w (key, bytes) = do
  modify (λ db. record db { accruals = with_accrual w key day.month db.accruals })
  old ← fetch (λ db. find_accrual w key day.month db.accruals) Error.crash
  modify (λ db. record db {
    accruals =
        set_accrual w key day.month (accrued old bytes) (accrued old bytes / denominator day)
          db.accruals;
  })
  pure (pos (accrued old bytes / denominator day) -ℤ pos old.charged_cents)

pub meter_tools : Day → ℕ → List (ℕ × ℕ) → Action ℤ
meter_tools day w [] = pure (pos 0)
meter_tools day w (t ∷ ts) =
    meter_tool day w t >>= λ a. meter_tools day w ts >>= λ rest. pure (a +ℤ rest)

abbrev pub meter_ref : ℕ → Day → Ref
meter_ref w day = record { prefix = Prefix.organization_meter; name = w; day = day.name }

abbrev pub is_running_day : Day → Memo → Bool
is_running_day day (Memo.running_day d) = d == day.name
is_running_day day _ = false

abbrev pub is_charge_of : Kind → Bool
is_charge_of Kind.charge = true
is_charge_of _ = false

abbrev pub has_day : ℕ → Day → List Line → Bool
has_day w day [] = false
has_day w day (l ∷ ls) =
    (l.workspace_id == w && (is_charge_of l.kind && is_running_day day l.memo)) || has_day w day ls

-- SELECT 1 FROM ledger WHERE ref=? OR (workspace_id=? AND kind='charge' AND memo LIKE ?)
abbrev pub is_metered : ℕ → Day → Db → Bool
is_metered w day db = has_ref (meter_ref w day) db.ledger || has_day w day db.ledger

abbrev pub usage_line : ℕ → ℕ → Day → ℤ → Workspace → Line
usage_line now w day amount ws = record {
  workspace_id = w;
  ts = now;
  kind = Kind.charge;
  amount_cents = pos 0 -ℤ amount;
  balance_after = ws.balance_cents -ℤ amount;
  memo = Memo.running_day day.name;
  ref = some (meter_ref w day);
}

pub charge_day : ℕ → ℕ → Workspace → Day → List (ℕ × ℕ) → Action (Option ℤ)
charge_day now w ws day tools = do
  storage ← meter_tools day w tools
  fresh ← fetch (λ db. find w db.workspaces) Error.crash
  raise_when (λ db. clashes (some (meter_ref w day)) db.ledger) Error.crash
  modify (write_line (usage_line now w day (pos (daily_rate ws day) +ℤ storage) fresh))
  sync w
  pure (some (pos (daily_rate ws day) +ℤ storage))

-- The transaction of a day; `none` where the day is paid already.
pub meter_day : ℕ → ℕ → Workspace → Day → List (ℕ × ℕ) → Action (Option ℤ)
unfolding charge_day
meter_day now w ws day tools =
    atomically λ db. if is_metered w day db then ok none db else charge_day now w ws day tools db

-- `except Exception`: a failed refill leaves the balance that was read before it.
abbrev pub refilled_balance : ℕ → ℤ → Run Db Error ℤ → Run Db Error ℤ
refilled_balance w before (ok b db) = ok (balance w db) db
refilled_balance w before (err e db) = ok before db

abbrev pub pause_by : ℕ → Workspace → ℤ → Action (Unit {0})
pause_by w ws b db = ok tt (
    if not (ltb_ℤ pause_at b) && not ws.paused
    then set_paused true w db
    else if ltb_ℤ pause_at b && ws.paused
    then set_paused false w db
    else db)

abbrev pub wants_refill : Workspace → ℤ → Bool
wants_refill ws b = ltb_ℤ b refill_below && (is_some ws.stripe_pm && not (ws.autorefill_cents == 0))

module _ (provider : Provider) (month : Month) where
  abbrev pub refill_by : ℕ → ℕ → ℕ → Workspace → ℤ → Action ℤ
  refill_by ident now w ws b db =
      if wants_refill ws b
      then refilled_balance w b (auto_refill provider ident now month w db)
      else ok b db

  -- `_settle`; `ws` is the row that the caller read.
  pub settle_workspace : ℕ → ℕ → ℕ → Workspace → Action (Unit {0})
  settle_workspace ident now w ws = do
    before ← gets (balance w)
    b ← refill_by ident now w ws before
    pause_by w ws b

  abbrev pub after_charge : ℕ → ℕ → ℕ → Workspace → Option ℤ → Action (Unit {0})
  after_charge ident now w ws none = pure tt
  after_charge ident now w ws (some amount) = settle_workspace ident now w ws

  abbrev pub meter_usage : ℕ → ℕ → Day → ℕ → Workspace → Usage → Action (Unit {0})
  meter_usage ident now day w ws idle db = settle_workspace ident now w ws db
  meter_usage ident now day w ws unmeasured db =
      (if is_metered w day db then settle_workspace ident now w ws else pure tt) db
  meter_usage ident now day w ws (measured tools) db =
      (if is_metered w day db
          then settle_workspace ident now w ws
          else meter_day now w ws day tools >>= after_charge ident now w ws)
        db

  -- The loop over the workspaces as they were read; `usage` is what is measured of each, and
  -- `ident` the identifier that its refill would draw.
  abbrev pub meter_all : (ℕ → Usage) → (ℕ → ℕ) → ℕ → Day → Table Workspace → Action (Unit {0})
  meter_all usage ident now day [] = pure tt
  meter_all usage ident now day ((w, ws) ∷ rest) =
      meter_usage (ident w) now day w ws (usage w) >>= λ _. meter_all usage ident now day rest

  -- `meter_once`
  pub meter_once : (ℕ → Usage) → (ℕ → ℕ) → ℕ → Day → Action (Unit {0})
  unfolding settle_workspace meter_day
  meter_once usage ident now day db = meter_all usage ident now day db.workspaces db
