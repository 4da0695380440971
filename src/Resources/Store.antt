-- ===== src/Resources/Store.antt =====
-- The tables of storage limits, of control/app/db.py, and `limits` and `notify` of
-- control/app/resources.py.
use boathouse_cloud.Prelude.{
  ℕ, ◌+◌, Bool, false, ◌&&◌, ◌||◌, Option, none, some, List, [], ◌∷◌, ◌++◌, ◌==◌, ltb,
  if◌then◌else◌,
}
use boathouse_cloud.Prelude.Table.{Table, find}

-- The texts of the column `reason`.
pub data Reason : Type 0 where
  storage_full memory_near cpu_busy no_capacity : Reason

-- `resource_limits`, by its resource_key; `is_paused` is the state 'paused'.
pub record Limit : Type 0 where
  pub workspace_id : ℕ
  pub limit_bytes : ℕ
  pub approved_by : Option ℕ
  pub approved_at : Option ℕ
  pub sampled_at : Option ℕ
  pub storage_bytes : Option ℕ
  pub memory_bytes : Option ℕ
  pub is_paused : Bool
  pub reason : Option Reason
  pub high_cpu_since : Option ℕ
  pub last_warning : ℕ

-- `resource_quotes`
pub record Quote : Type 0 where
  pub workspace_id : ℕ
  pub resource_key : ℕ
  pub old_limit_bytes : ℕ
  pub limit_bytes : ℕ
  pub max_extra_monthly_cents : ℕ
  pub created_by : ℕ
  pub expires : ℕ
  pub confirmed : Option ℕ

-- `resource_notifications`
pub record Notification : Type 0 where
  pub resource_key : ℕ
  pub level : ℕ
  pub email : ℕ
  pub created : ℕ

pub record Store : Type 0 where
  pub limits : Table Limit
  pub quotes : Table Quote
  pub notifications : List Notification

-- `ResourceError`, by its message, and what Docker raises.
pub data Error : Type 0 where
  guard_off bad_capacity not_above unmatched expired changed : Error
  storage_service host_full docker : Error

-- A row of `tools`
pub record Tool : Type 0 where
  pub resource_key : ℕ
  pub workspace_id : ℕ

-- GIB
abbrev pub gib : ℕ
gib = 1073741824

abbrev pub fresh_limit : ℕ → Limit
fresh_limit w = record {
  workspace_id = w;
  limit_bytes = gib;
  approved_by = none;
  approved_at = none;
  sampled_at = none;
  storage_bytes = none;
  memory_bytes = none;
  is_paused = false;
  reason = none;
  high_cpu_since = none;
  last_warning = 0;
}

-- INSERT OR IGNORE
abbrev pub insert_over : Option Limit → Tool → Table Limit → Table Limit
insert_over none t ls = ls ++ (t.resource_key, fresh_limit t.workspace_id) ∷ []
insert_over (some l) t ls = ls

-- `limits`: the statement, and the row that it returns.
unfoldable pub with_limit : Tool → Store → Store
with_limit t db = record db { limits = insert_over (find t.resource_key db.limits) t db.limits }

abbrev pub limit_or : ℕ → Option Limit → Limit
limit_or w none = fresh_limit w
limit_or w (some l) = l

unfoldable pub limit_of : Tool → Store → Limit
limit_of t db = limit_or t.workspace_id (find t.resource_key db.limits)

-- A notice to the address in the last hour.
abbrev pub was_told : ℕ → ℕ → ℕ → ℕ → List Notification → Bool
was_told now key level email [] = false
was_told now key level email (n ∷ ns) =
    (n.resource_key == key
      && (n.level == level && (n.email == email && ltb now (n.created + 3600))))
    || was_told now key level email ns

abbrev pub tell : ℕ → ℕ → ℕ → ℕ → List Notification → List Notification
tell now key level email ns =
    if was_told now key level email ns
    then ns
    else ns ++ record { resource_key = key; level = level; email = email; created = now } ∷ []

-- `notify`, with the owners of the workspace
abbrev pub notify : ℕ → ℕ → ℕ → List ℕ → List Notification → List Notification
notify now key level [] ns = ns
notify now key level (e ∷ es) ns = notify now key level es (tell now key level e ns)
