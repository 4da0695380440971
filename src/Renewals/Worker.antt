-- ===== src/Renewals/Worker.antt =====
-- `process_domain` and `run_once` of control/app/domain_renewals.py. The registrar's answers and the
-- clock of a round are functions of the domain.
use boathouse_cloud.Prelude.{
  ℕ, ◌+◌, ◌*◌, ◌/◌, Bool, true, false, not, ◌&&◌, Option, none, some, List, [], ◌∷◌, ◌==◌, ltb, leb,
  same, if◌then◌else◌,
}
use boathouse_cloud.Prelude.Int.{ℤ, pos, ltb_ℤ}
use boathouse_cloud.Prelude.Table.{Table, first_row}
use boathouse_cloud.Prelude.Exec.{
  Run, ok, err, pure, gets, raise_if, raise_when, modify, ◌>>=◌, ◌>>◌,
}
use boathouse_cloud.Db.{
  Db, Renewal, RenewalSetting, Notice, NoticeKey, KeyHead, Code, Error, Action,
}
use boathouse_cloud.Purchases.Finish.{Answer}
use boathouse_cloud.Renewals.Notices.{
  day_seconds, owners_of, notify, notify_host, flush_notices, link, problem,
}
use boathouse_cloud.Renewals.Policy.{
  Response, respond, registrar_error, DomainInfo, RenewalQuote, is_submitted, sync_domain,
}
use boathouse_cloud.Renewals.Plan.{advance_key, plan}
use boathouse_cloud.Renewals.Reserve.{renew_days, sent_time}
use boathouse_cloud.Renewals.Execute.{is_renewed, execute}

-- NOTICE_DAYS
abbrev pub notice_days : ℕ
notice_days = 30

-- What `registrar.renew` returns for a dry run.
pub record DryRun : Type 0 where
  pub dry_run : Bool
  pub would_succeed : Bool
  pub sufficient_funds : Bool
  pub cost : Option ℕ

abbrev pub is_ready : ℕ → DryRun → Bool
is_ready registrar_cents d =
    d.dry_run && (d.would_succeed && (d.sufficient_funds && same d.cost (some registrar_cents)))

-- What the registrar answers about one domain, the clock then, and the identifier of a new plan.
pub record Visit : Type 0 where
  pub now : ℕ
  pub ident : ℕ
  pub found : Response DomainInfo
  pub first_quote : Response RenewalQuote
  pub disabled : Response DomainInfo
  pub quoted : Response RenewalQuote
  pub dried : Response DryRun
  pub renewal : Answer

-- `any(not sent.get(e) for e in owners)`; a time is never 0
abbrev pub is_sent : Option ℕ → Bool
is_sent none = false
is_sent (some t) = not (t == 0)

abbrev pub all_sent : NoticeKey → List Notice → List ℕ → Bool
all_sent k ns [] = true
all_sent k ns (e ∷ es) = is_sent (sent_time k e ns) && all_sent k ns es

abbrev pub has_any : List ℕ → Bool
has_any [] = false
has_any (e ∷ es) = true

abbrev pub notices_missing : NoticeKey → ℕ → Db → Bool
notices_missing k w db =
    not (has_any (owners_of w db.owners) && all_sent k db.notices (owners_of w db.owners))

abbrev pub expiry_stage : ℕ → ℕ → ℕ
expiry_stage now expires =
    if leb expires (now + day_seconds)
    then 1
    else if leb expires (now + 7 * day_seconds)
    then 7
    else 30

abbrev pub expiring_key : ℕ → ℕ → ℕ → NoticeKey
expiring_key now domain expires = record {
  head = KeyHead.expiring;
  name = domain;
  first = expires;
  second = expiry_stage now expires;
}

module _ (platform : ℕ → Bool) (fingerprint : ℕ) (sandbox : Bool) where
  -- What follows the advance notice.
  unfoldable pub renew_due : Visit → ℕ → ℕ → RenewalSetting → ℕ × Renewal → Action (Unit {0})
  renew_due v domain w p (oid, row) = do
    raise_if (ltb p.max_cost_cents row.total_cents) (registrar_error Code.price_limit)
    if ltb (v.now + renew_days * day_seconds) p.expires_at then pure tt else do
      raise_when (notices_missing (advance_key row) w) (registrar_error Code.notice_not_sent)
      d ← respond v.dried
      raise_if (not (is_ready row.registrar_cents d)) (registrar_error Code.provider_not_ready)
      execute platform fingerprint sandbox v.now oid v.renewal

  -- What follows the test of the expiry.
  unfoldable pub plan_renewal : Visit → ℕ → ℕ → RenewalSetting → Action (Unit {0})
  plan_renewal v domain w p = do
    raise_if (leb p.expires_at v.now) (registrar_error Code.domain_expired)
    q ← respond v.quoted
    row ← plan v.ident domain p q
    if is_renewed (row.1).state
        then pure tt
        else do _ ← link w; modify (notify (advance_key row.1) w); renew_due v domain w p row

  -- The test of `enabled`, near the expiry.
  abbrev pub follow_policy : Visit → ℕ → ℕ → RenewalSetting → Bool → Action (Unit {0})
  follow_policy v domain w p true = plan_renewal v domain w p
  follow_policy v domain w p false = do
    _ ← link w
    modify (notify (expiring_key v.now domain p.expires_at) w)

  -- The branch of a domain without a pending renewal.
  unfoldable pub visit_domain : Visit → ℕ → ℕ → Action (Unit {0})
  visit_domain v domain w = do
    p ← sync_domain platform fingerprint sandbox v.found v.first_quote v.disabled domain w
    if ltb (v.now + notice_days * day_seconds) p.expires_at
        then pure tt
        else follow_policy v domain w p p.enabled

  abbrev pub process_by : Visit → ℕ → ℕ → Option (ℕ × Renewal) → Action (Unit {0})
  process_by v domain w (some (oid, r)) = execute platform fingerprint sandbox v.now oid v.renewal
  process_by v domain w none = visit_domain v domain w

  -- `process_domain`
  unfoldable pub process_domain : Visit → ℕ → ℕ → Action (Unit {0})
  unfolding visit_domain plan_renewal renew_due
  process_domain v domain w = do
    pending ← gets (λ db. first_row (λ i r. r.domain == domain && is_submitted r.state) db.renewals)
    process_by v domain w pending

-- What `run_once` returns.
pub data Round : Type 0 where
  busy : Round
  lease_lost checked : ℕ → ℕ → Round

-- `LEASE`: half an hour
abbrev pub worker_seconds : ℕ
worker_seconds = 1800

-- UPDATE domain_renewal_worker SET lease_until=? WHERE id=1
abbrev pub set_lease : ℕ → Db → Db
set_lease until db = record db { worker_lease = until }

-- the `finally` clause
abbrev pub drop_lease : ℕ → Db → Db
drop_lease lease db = if db.worker_lease == lease then set_lease 0 db else db

-- How the loop over the domains ends: the lease that it holds, and a result or an exception.
pub record Ended : Type 0 where
  pub lease : ℕ
  pub result : Run Db Error Round

-- `registrar.creds` and `registrar.status`: `none` where there is no balance to read.
abbrev pub watch_credit : Option ℕ → ℕ → Option ℤ → Db → Db
watch_credit host now none db = db
watch_credit host now (some balance) db =
    if ltb_ℤ balance (pos 2000)
    then notify_host host
        (record {
          head = KeyHead.registrar_low;
          name = 0;
          first = now / (7 * day_seconds);
          second = 0;
        })
        none db
    else db

-- The rest of the loop, after one domain was checked.
abbrev pub next_domain : (ℕ → ℕ → ℕ → Db → Ended) → ℕ → ℕ → ℕ → Run Db Error ℕ → Ended
next_domain rest lease processed errors (ok n db) = rest lease (processed + 1) (errors + n) db
next_domain rest lease processed errors (err e db) = record { lease = lease; result = err e db }

module _ (platform : ℕ → Bool) (fingerprint : ℕ) (sandbox : Bool) (host : Option ℕ)
    (digest : Db → Error → ℕ) (visit : ℕ → Visit) where
  -- The `except` clause of one domain: whether it counts as an error.
  abbrev pub reported : ℕ → ℕ → Run Db Error (Unit {0}) → Run Db Error ℕ
  reported domain w (ok _ db) = ok 0 db
  reported domain w (err e db) =
      (problem host (visit domain).now domain w (digest db e) >> pure 1) db

  unfoldable pub check_domain : ℕ → ℕ → Action ℕ
  check_domain domain w db =
      reported domain w (process_domain platform fingerprint sandbox (visit domain) domain w db)

  unfoldable pub check_domains : Table ℕ → ℕ → ℕ → ℕ → Db → Ended
  unfolding check_domain
  check_domains [] lease processed errors db = record {
    lease = lease;
    result = ok (checked processed errors) db;
  }
  check_domains ((domain, w) ∷ ds) lease processed errors db =
      if db.worker_lease == lease
      then (let until = (visit domain).now + worker_seconds in
          next_domain (check_domains ds) until processed errors
            (check_domain domain w (set_lease until db)))
      else record { lease = lease; result = ok (lease_lost processed errors) db }

  module _ (mail : ℕ → NoticeKey → Bool) (balance : Option ℤ) where
    -- After the loop: an early return and an exception skip the rest.
    abbrev pub close_round : ℕ → ℕ → Run Db Error Round → Run Db Error Round
    close_round now lease (err x db) = err x (drop_lease lease db)
    close_round now lease (ok (checked n m) db) =
        ok (checked n m)
          (drop_lease lease (flush_notices host mail now (watch_credit host now balance db)).0)
    close_round now lease (ok r db) = ok r (drop_lease lease db)

    -- `run_once`
    unfoldable pub run_once : ℕ → Action Round
    unfolding check_domains
    run_once now db =
        let started = (flush_notices host mail now (set_lease (now + worker_seconds) db)).0 in
        let e = check_domains started.allocations (now + worker_seconds) 0 0 started in
        if leb db.worker_lease now then close_round now e.lease e.result else ok busy db
