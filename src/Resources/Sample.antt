-- ===== src/Resources/Sample.antt =====
-- `_sample` of control/app/resources.py. A share of a limit is compared by multiplication. What the
-- host answers when a paused app is to be started is `Start`.
use boathouse_cloud.Prelude.{
  ℕ, ◌+◌, ◌*◌, Bool, true, false, not, ◌&&◌, ◌||◌, Option, none, some, List, ltb, leb, get_or,
  if◌then◌else◌, ◌==◌,
}
use boathouse_cloud.Prelude.Exec.{Exec, pure, raise, gets, modify, ◌>>=◌, ◌>>◌}
use boathouse_cloud.Prelude.Table.{update}
use boathouse_cloud.Resources.Store.{
  Reason, storage_full, memory_near, cpu_busy, no_capacity, Limit, Store, Error, docker, Tool,
  with_limit, limit_of, notify,
}

-- What the storage service and Docker measure; `is_busy` is a CPU share of 80 or more.
pub record Reading : Type 0 where
  pub storage_bytes : ℕ
  pub limit_bytes : ℕ
  pub inodes : ℕ
  pub inode_limit : ℕ
  pub memory_bytes : Option ℕ
  pub is_busy : Bool

pub data Start : Type 0 where
  started refused broken : Start

-- The owners of the workspace, whether it is paused, and the host.
pub record Host : Type 0 where
  pub owners : List ℕ
  pub is_paused : Bool
  pub start : Start

-- `ratio >= mille / 1000`
abbrev pub at_least : ℕ → Reading → Bool
at_least mille r =
    leb (mille * r.limit_bytes) (1000 * r.storage_bytes)
    || leb (mille * r.inode_limit) (1000 * r.inodes)

abbrev pub level : Reading → ℕ
level r =
    if at_least 995 r then 100 else if at_least 900 r then 90 else if at_least 800 r then 80 else 0

abbrev pub busy_since : ℕ → Bool → Option ℕ → Option ℕ
busy_since now false since = none
busy_since now true since = some (get_or now since)

abbrev pub is_sustained : ℕ → Option ℕ → Bool
is_sustained now none = false
is_sustained now (some t) = leb (t + 300) now

abbrev pub is_near : Option ℕ → Bool
is_near none = false
is_near (some m) = leb (9 * 536870912) (10 * m)

-- the reason before the state is known
abbrev pub reason_of : ℕ → Reading → Limit → Option Reason
reason_of now r l =
    if level r == 100
    then some storage_full
    else if is_near r.memory_bytes
    then some memory_near
    else if is_sustained now (busy_since now r.is_busy l.high_cpu_since)
    then some cpu_busy
    else none

-- The state and the reason that are written, or Docker's exception.
abbrev pub resume : Bool → Start → Option Reason → Exec Store Error (Bool × Option Reason)
resume true start reason = pure (false, reason)
resume false started reason = pure (false, reason)
resume false refused reason = pure (true, some no_capacity)
resume false broken reason = raise docker

abbrev pub decide :
    Bool
    → Bool
    → Bool
    → Host
    → Option Reason
    → Option Reason
    → Exec Store Error (Bool × Option Reason)
decide true paused low h reason old = pure (true, reason)
decide false true true h reason old = resume h.is_paused h.start reason
decide false true false h reason old = pure (true, old)
decide false false low h reason old = pure (false, reason)

abbrev pub max : ℕ → ℕ → ℕ
max a b = if ltb a b then b else a

abbrev pub last_level : Reading → ℕ → ℕ
last_level r last = if at_least 700 r then max last (level r) else 0

abbrev pub write_sample : ℕ → Reading → Limit → Bool × Option Reason → Limit → Limit
write_sample now r row s l = record l {
  sampled_at = some now;
  storage_bytes = some r.storage_bytes;
  memory_bytes = r.memory_bytes;
  is_paused = s.0;
  reason = s.1;
  high_cpu_since = busy_since now r.is_busy row.high_cpu_since;
  last_warning = last_level r row.last_warning;
}

abbrev pub same_reason : Reason → Reason → Bool
same_reason storage_full storage_full = true
same_reason memory_near memory_near = true
same_reason cpu_busy cpu_busy = true
same_reason no_capacity no_capacity = true
same_reason _ _ = false

-- `reason and reason != row["reason"]`
abbrev pub is_news : Option Reason → Option Reason → Bool
is_news none old = false
is_news (some r) none = true
is_news (some r) (some s) = not (same_reason r s)

abbrev pub notify_if : Bool → ℕ → ℕ → ℕ → List ℕ → Store → Store
notify_if false now key lvl owners db = db
notify_if true now key lvl owners db = record db {
  notifications = notify now key lvl owners db.notifications;
}

-- The statements after the state is known.
abbrev pub record_sample : ℕ → Tool → Host → Reading → Limit → Bool × Option Reason → Store → Store
record_sample now t h r row s db =
    let written = record db {
      limits = update t.resource_key (write_sample now r row s) db.limits;
    } in
    let warned =
      notify_if (ltb row.last_warning (level r)) now t.resource_key (level r) h.owners written in
    notify_if (not (level r == 100) && is_news s.1 row.reason) now t.resource_key 70 h.owners warned

-- `_sample`, with what was measured
unfoldable pub sample : ℕ → Tool → Host → Reading → Exec Store Error (Unit {0})
sample now t h r = do
  modify (with_limit t)
  row ← gets (limit_of t)
  s ←
      decide (level r == 100) row.is_paused (not (at_least 900 r)) h (reason_of now r row)
        row.reason
  modify (record_sample now t h r row s)
