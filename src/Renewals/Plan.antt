-- ===== src/Renewals/Plan.antt =====
-- `_notice_key` and `_plan` of control/app/domain_renewals.py.
use boathouse_cloud.Prelude.{
  ℕ, ◌+◌, ◌*◌, Bool, true, false, not, ◌&&◌, ◌||◌, Option, none, some, ◌++◌, [], ◌∷◌, ◌==◌, is_some,
  if◌then◌else◌,
}
use boathouse_cloud.Prelude.Table.{find, update, first_row, any_row}
use boathouse_cloud.Prelude.Exec.{pure, gets, raise_when, modify, fetch, atomically, ◌>>=◌, ◌>>◌}
use boathouse_cloud.Db.{
  Db, Renewal, RenewalSetting, RenewalState, NoticeKey, KeyHead, Error, Action,
}
use boathouse_cloud.Purchases.Quote.{domain_margin}
use boathouse_cloud.Renewals.Policy.{RenewalQuote}

-- `_notice_key`
abbrev pub advance_key : Renewal → NoticeKey
advance_key r = record {
  head = KeyHead.advance;
  name = r.domain;
  first = r.expires_at;
  second = r.total_cents;
}

-- `state NOT IN ('failed','cancelled')`
abbrev pub is_open : RenewalState → Bool
is_open RenewalState.failed = false
is_open RenewalState.cancelled = false
is_open _ = true

abbrev pub is_waiting : RenewalState → Bool
is_waiting RenewalState.waiting = true
is_waiting _ = false

-- An open renewal of the domain's present registration; `domain_renewal_cycle` allows one.
abbrev pub in_cycle : ℕ → ℕ → ℕ → Renewal → Bool
in_cycle domain expires i r = r.domain == domain && (r.expires_at == expires && is_open r.state)

abbrev pub planned : ℕ → RenewalSetting → RenewalQuote → Renewal
planned domain p q = record {
  workspace_id = p.workspace_id;
  domain = domain;
  expires_at = p.expires_at;
  registrar_cents = q.cost_cents;
  margin_cents = domain_margin * q.years;
  total_cents = q.cost_cents + domain_margin * q.years;
  years = q.years;
  state = RenewalState.waiting;
  provider_fingerprint = p.provider_fingerprint;
  sandbox = p.sandbox;
  started = none;
  lease_until = 0;
  provider_result = none;
}

abbrev pub set_renewal : ℕ → (Renewal → Renewal) → Db → Db
set_renewal oid f db = record db { renewals = update oid f db.renewals }

abbrev pub cancelled : Renewal → Renewal
cancelled r = record r { state = RenewalState.cancelled }

-- the primary key, and the index `domain_renewal_cycle`
unfoldable pub insert_renewal : ℕ → Renewal → Action (ℕ × Renewal)
insert_renewal oid r = do
  raise_when (λ db. is_some (find oid db.renewals)) Error.crash
  raise_when (λ db. any_row (in_cycle r.domain r.expires_at) db.renewals) Error.crash
  modify (λ db. record db { renewals = db.renewals ++ (oid, r) ∷ [] })
  new ← fetch (λ db. find oid db.renewals) Error.crash
  pure (oid, new)

abbrev pub keeps_plan : RenewalQuote → Renewal → Bool
keeps_plan q r =
    not (is_waiting r.state) || (r.registrar_cents == q.cost_cents && r.years == q.years)

abbrev pub plan_over :
    ℕ → ℕ → RenewalSetting → RenewalQuote → Option (ℕ × Renewal) → Action (ℕ × Renewal)
plan_over oid domain p q none = insert_renewal oid (planned domain p q)
plan_over oid domain p q (some (i, r)) =
    if keeps_plan q r
    then pure (i, r)
    else do modify (set_renewal i cancelled); insert_renewal oid (planned domain p q)

unfoldable pub plan_body : ℕ → ℕ → RenewalSetting → RenewalQuote → Action (ℕ × Renewal)
unfolding insert_renewal
plan_body oid domain p q = do
  old ← gets (λ db. first_row (in_cycle domain p.expires_at) db.renewals)
  plan_over oid domain p q old

-- `_plan`, with the identifier that it draws.
unfoldable pub plan : ℕ → ℕ → RenewalSetting → RenewalQuote → Action (ℕ × Renewal)
unfolding plan_body
plan oid domain p q = atomically (plan_body oid domain p q)
