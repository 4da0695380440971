-- ===== src/Resources/Capacity.antt =====
-- `quote` and `confirm` of control/app/resources.py. The answer of the storage service is `Placed`.
use boathouse_cloud.Prelude.{
  ℕ, ◌+◌, ◌*◌, ◌-◌, Bool, true, false, not, ◌&&◌, Option, none, some, ◌++◌, [], ◌∷◌, ◌==◌, ltb, leb,
  same, is_some,
}
use boathouse_cloud.Prelude.Exec.{
  Exec, pure, raise, gets, fetch, or_raise, raise_if, modify, ◌>>=◌, ◌>>◌,
}
use boathouse_cloud.Prelude.Table.{find, update}
use boathouse_cloud.Resources.Store.{
  Limit, Quote, Store, Error, guard_off, bad_capacity, not_above, unmatched, expired, changed,
  storage_service, Tool, gib, with_limit, limit_of,
}
use boathouse_cloud.Resources.Sample.{Reading, Host, Start, broken, sample}

abbrev pub new_quote : ℕ → Tool → Limit → ℕ → ℕ → Quote
new_quote now t row size by = record {
  workspace_id = t.workspace_id;
  resource_key = t.resource_key;
  old_limit_bytes = row.limit_bytes;
  limit_bytes = size * gib;
  max_extra_monthly_cents = (size - 1) * 25;
  created_by = by;
  expires = now + 900;
  confirmed = none;
}

abbrev pub in_range : ℕ → ℕ → Bool
in_range most size = leb 1 size && leb size most

abbrev pub add_quote : ℕ → Quote → Store → Store
add_quote i q db = record db { quotes = db.quotes ++ (i, q) ∷ [] }

abbrev pub quote_sized : ℕ → ℕ → Tool → ℕ → ℕ → ℕ → Exec Store Error Quote
quote_sized now most t size by i = do
  raise_if (not (in_range most size)) bad_capacity
  modify (with_limit t)
  row ← gets (limit_of t)
  raise_if (leb (size * gib) row.limit_bytes) not_above
  modify (add_quote i (new_quote now t row size by))
  pure (new_quote now t row size by)

-- `quote`, with the identifier that it draws; the size is `none` where it is no integer.
unfoldable pub quote : ℕ → Bool → ℕ → Tool → Option ℕ → ℕ → ℕ → Exec Store Error Quote
quote now guard most t size by i = do
  raise_if (not guard) guard_off
  n ← or_raise size bad_capacity
  quote_sized now most t n by i

abbrev pub in_app : Tool → Option Quote → Option Quote
in_app t none = none
in_app t (some q) = elim (q.workspace_id == t.workspace_id && q.resource_key == t.resource_key) [
  | true ↦ some q
  | false ↦ none
]

abbrev pub quote_in : Tool → ℕ → Store → Option Quote
quote_in t i db = in_app t (find i db.quotes)

abbrev pub is_approved : Option ℕ → ℕ → Quote → Bool
is_approved maximum by q = same maximum (some q.max_extra_monthly_cents) && q.created_by == by

abbrev pub approve : ℕ → ℕ → Quote → Limit → Limit
approve now by q l = record l {
  limit_bytes = q.limit_bytes;
  approved_by = some by;
  approved_at = some now;
  is_paused = false;
  reason = none;
  last_warning = 0;
}

abbrev pub confirm_rows : ℕ → ℕ → ℕ → Quote → Store → Store
confirm_rows now by i q db = record db {
  limits = update q.resource_key (approve now by q) db.limits;
  quotes = update i (λ p. record p { confirmed = some now }) db.quotes;
}

-- What the storage service answers: the reading under the new limit.
abbrev pub Placed : Type 0
Placed = Option Reading

-- A paused app of a workspace that runs is started; `ResourceError` is passed over.
abbrev pub restart : Bool → Start → Exec Store Error (Unit {0})
restart true broken = raise Error.docker
restart _ _ = pure tt

-- The statements for a quote that is not confirmed.
abbrev pub confirm_open : ℕ → Tool → Host → Placed → ℕ → ℕ → Quote → Exec Store Error Limit
confirm_open now t h placed i by q = do
  raise_if (ltb q.expires now) expired
  modify (with_limit t)
  row ← gets (limit_of t)
  raise_if (not (row.limit_bytes == q.old_limit_bytes)) changed
  reading ← or_raise placed storage_service
  modify (confirm_rows now by i q)
  restart (row.is_paused && not h.is_paused) h.start
  sample now t h reading
  modify (with_limit t)
  gets (limit_of t)

abbrev pub confirm_by : Bool → ℕ → Tool → Host → Placed → ℕ → ℕ → Quote → Exec Store Error Limit
confirm_by true now t h placed i by q = do modify (with_limit t); gets (limit_of t)
confirm_by false now t h placed i by q = confirm_open now t h placed i by q

-- `confirm`, for a tool of the workspace
unfoldable pub confirm : ℕ → Tool → Host → Placed → ℕ → Option ℕ → ℕ → Exec Store Error Limit
confirm now t h placed i maximum by = do
  q ← fetch (quote_in t i) unmatched
  raise_if (not (is_approved maximum by q)) unmatched
  confirm_by (is_some q.confirmed) now t h placed i by q
