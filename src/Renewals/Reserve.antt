-- ===== src/Renewals/Reserve.antt =====
-- `_reserve` of control/app/domain_renewals.py.
use boathouse_cloud.Prelude.{
  ℕ, ◌+◌, ◌*◌, Bool, true, false, not, ◌&&◌, ◌||◌, Option, none, some, List, [], ◌∷◌, ◌==◌, ltb,
  leb, get_or, if◌then◌else◌,
}
use boathouse_cloud.Prelude.Int.{pos, ◌-ℤ◌, ltb_ℤ, neg}
use boathouse_cloud.Prelude.Table.{find}
use boathouse_cloud.Prelude.Exec.{
  pure, raise, gets, raise_if, modify, fetch, atomically, ◌>>=◌, ◌>>◌,
}
use boathouse_cloud.Db.{
  Workspace, Renewal, RenewalSetting, RenewalState, Notice, NoticeKey, notice_key_eq, Proof, Line,
  Kind, Memo, Ref, Prefix, Code, Error, Action,
}
use boathouse_cloud.Purchases.Reserve.{replay_seconds, lease_seconds, insert_line}
use boathouse_cloud.Renewals.Notices.{day_seconds, owners_of, allocation}
use boathouse_cloud.Renewals.Policy.{is_submitted, differs, registrar_error}
use boathouse_cloud.Renewals.Plan.{advance_key, is_waiting, set_renewal}

-- RENEW_DAYS and MIN_NOTICE_DAYS
abbrev pub renew_days : ℕ
renew_days = 14

abbrev pub min_notice_days : ℕ
min_notice_days = 7

abbrev pub renewal_ref : ℕ → Ref
renewal_ref oid = record { prefix = Prefix.renewal; name = oid; day = 0 }

abbrev pub renewal_line : ℕ → ℕ → Renewal → Workspace → Line
renewal_line now oid r ws = record {
  workspace_id = r.workspace_id;
  ts = now;
  kind = Kind.pending_renewal;
  amount_cents = neg r.total_cents;
  balance_after = ws.balance_cents -ℤ pos r.total_cents;
  memo = Memo.plain;
  ref = some (renewal_ref oid);
}

-- `sent.get(email)` of the notices under a key
abbrev pub sent_time : NoticeKey → ℕ → List Notice → Option ℕ
sent_time k email [] = none
sent_time k email (n ∷ ns) =
    if notice_key_eq n.notice_key k && n.email == email then n.sent_at else sent_time k email ns

-- the time of a sent notice, which is never 0; and seven days have passed
abbrev pub is_ripe : ℕ → Option ℕ → Bool
is_ripe now none = false
is_ripe now (some t) = not (t == 0) && leb (t + min_notice_days * day_seconds) now

abbrev pub all_ripe : ℕ → NoticeKey → List Notice → List ℕ → Bool
all_ripe now k ns [] = true
all_ripe now k ns (e ∷ es) = is_ripe now (sent_time k e ns) && all_ripe now k ns es

abbrev pub were_notified : ℕ → NoticeKey → List Notice → List ℕ → Bool
were_notified now k ns [] = false
were_notified now k ns (e ∷ es) = all_ripe now k ns (e ∷ es)

-- The tests of the setting after which a renewal starts.
abbrev pub is_renewable : ℕ → Renewal → RenewalSetting → Bool
is_renewable now r p =
    p.managed
    && (p.enabled
        && (p.expires_at == r.expires_at
            && (ltb now r.expires_at && leb r.expires_at (now + renew_days * day_seconds))))

-- The credit of a renewal that waits. True where it is reserved, false for `return None`.
unfoldable pub reserve_waiting : ℕ → ℕ → Renewal → Action Bool
reserve_waiting now oid r = do
  p ← fetch (λ db. find r.domain db.settings) Error.crash
  if not (is_renewable now r p) then pure false else do
    raise_if (ltb p.max_cost_cents r.total_cents) (registrar_error Code.price_limit)
    ready ←
        gets
          (λ db. were_notified now (advance_key r) db.notices (owners_of r.workspace_id db.owners))
    if not ready then pure false else do
      ws ← fetch (λ db. find r.workspace_id db.workspaces) Error.crash
      raise_if (ltb_ℤ ws.balance_cents (pos r.total_cents))
          (registrar_error Code.insufficient_funds)
      insert_line (renewal_line now oid r ws)
      pure true

-- `not r['provider_result'] and now-r['started'] >= REPLAY_SECONDS`
abbrev pub check_replay : ℕ → Option Proof → Option ℕ → Action (Unit {0})
check_replay now (some p) started = pure tt
check_replay now none none = raise Error.crash
check_replay now none (some t) =
    raise_if (leb (t + replay_seconds) now) (registrar_error Code.reconciliation_required)

-- A submitted renewal: another worker may hold its lease.
abbrev pub reserve_again : ℕ → Renewal → Action Bool
reserve_again now r =
    if ltb now r.lease_until
    then pure false
    else do check_replay now r.provider_result r.started; pure true

abbrev pub to_processing : ℕ → Renewal → Renewal
to_processing now r = record r {
  state = RenewalState.processing;
  started = some (get_or now r.started);
  lease_until = now + lease_seconds;
}

abbrev pub moved_renewal : ℕ → Bool → Renewal → Bool
moved_renewal fingerprint sandbox r =
    not (r.provider_fingerprint == fingerprint) || differs r.sandbox sandbox

-- The row as it was read, with the mark `retrying_uncertain`, if it is to be sent.
abbrev pub start_renewal : ℕ → ℕ → Renewal → Bool → Action (Option (Renewal × Bool))
start_renewal now oid r false = pure none
start_renewal now oid r true = do
  modify (set_renewal oid (to_processing now))
  pure (some (r, is_submitted r.state))

module _ (platform : ℕ → Bool) (fingerprint : ℕ) (sandbox : Bool) where
  unfoldable pub reserve_renewal_open : ℕ → ℕ → Renewal → Action (Option (Renewal × Bool))
  reserve_renewal_open now oid r = do
    raise_if (moved_renewal fingerprint sandbox r) (registrar_error Code.registrar_changed)
    ready ← if is_submitted r.state then reserve_again now r else reserve_waiting now oid r
    start_renewal now oid r ready

  unfoldable pub reserve_renewal_body : ℕ → ℕ → Action (Option (Renewal × Bool))
  reserve_renewal_body now oid = do
    r ← fetch (λ db. find oid db.renewals) Error.crash
    allocation platform r.workspace_id r.domain
    if is_submitted r.state || is_waiting r.state then reserve_renewal_open now oid r else pure none

  -- `_reserve`; `none` is `return None`.
  unfoldable pub reserve_renewal : ℕ → ℕ → Action (Option (Renewal × Bool))
  unfolding reserve_renewal_body reserve_renewal_open reserve_waiting
  reserve_renewal now oid = atomically (reserve_renewal_body now oid)
