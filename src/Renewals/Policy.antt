-- ===== src/Renewals/Policy.antt =====
-- `set_policy` and `sync_domain` of control/app/domain_renewals.py.
use boathouse_cloud.Prelude.{
  ℕ, ◌+◌, ◌*◌, Bool, true, false, not, ◌&&◌, ◌||◌, Option, none, some, ◌++◌, [], ◌∷◌, ◌==◌, leb,
  is_some, get_or, if◌then◌else◌,
}
use boathouse_cloud.Prelude.Table.{find, update, any_row}
use boathouse_cloud.Prelude.Exec.{
  pure, raise, gets, or_raise, raise_if, raise_when, modify, fetch, atomically, ◌>>=◌, ◌>>◌,
}
use boathouse_cloud.Db.{Db, RenewalSetting, RenewalState, KeyHead, Code, Error, Action}
use boathouse_cloud.Purchases.Quote.{domain_margin}
use boathouse_cloud.Renewals.Notices.{allocation, link, notify}

-- What a call of the registrar returns, or the exception that it raises.
pub data Response (A : Type 0) : Type 0 where
  got : A → Response A
  failed : Error → Response A

abbrev pub respond : {A : Type 0} → Response A → Action A
respond (got a) = pure a
respond (failed e) = raise e

abbrev pub registrar_error : Code → Error
registrar_error c = Error.registrar (record { code = c; uncertain = false; replayed = false })

-- `registrar.domain_info`: `expires` is `timestamp(info['expireDate'])`, `auto_renew` is `none` where
-- it is neither 0 nor 1.
pub record DomainInfo : Type 0 where
  pub expires : Option ℕ
  pub active : Bool
  pub auto_renew : Option Bool
  pub api_access : Bool

-- `registrar.renewal_quote`
pub record RenewalQuote : Type 0 where
  pub cost_cents : ℕ
  pub years : ℕ

-- `state IN ('processing','uncertain')`
abbrev pub is_submitted : RenewalState → Bool
is_submitted RenewalState.processing = true
is_submitted RenewalState.uncertain = true
is_submitted _ = false

abbrev pub is_pending : ℕ → Db → Bool
is_pending domain db = any_row (λ i r. r.domain == domain && is_submitted r.state) db.renewals

abbrev pub set_setting : ℕ → (RenewalSetting → RenewalSetting) → Db → Db
set_setting domain f db = record db { settings = update domain f db.settings }

abbrev pub in_range : Option ℕ → Bool
in_range none = false
in_range (some m) = leb 1 m && leb m 100000

abbrev pub with_policy : Bool → Option ℕ → RenewalSetting → RenewalSetting
with_policy true maximum s = record s {
  enabled = true;
  max_cost_cents = get_or s.max_cost_cents maximum;
}
with_policy false maximum s = record s { enabled = false }

unfoldable pub policy_body : (ℕ → Bool) → ℕ → ℕ → Bool → Option ℕ → Action (Unit {0})
policy_body platform w domain enabled maximum = do
  allocation platform w domain
  raise_when (λ db. not (is_some (find domain db.settings))) (Error.http 409 Code.no_setting)
  raise_when (is_pending domain) (Error.http 409 Code.renewal_pending)
  modify (set_setting domain (with_policy enabled maximum))

-- `set_policy`; `enabled` is `none` where it is no Boolean, `maximum` where it is no integer or
-- below 0, and `ident` names the notice.
unfoldable pub set_policy : (ℕ → Bool) → ℕ → ℕ → ℕ → Option Bool → Option ℕ → Action RenewalSetting
unfolding policy_body
set_policy platform ident w domain none maximum = raise (Error.http 422 Code.bad_flag)
set_policy platform ident w domain (some enabled) maximum = do
  raise_if (enabled && not (in_range maximum)) (Error.http 422 Code.bad_limit)
  atomically (policy_body platform w domain enabled maximum)
  _ ← link w
  modify (notify (record { head = KeyHead.policy; name = ident; first = 0; second = 0 }) w)
  fetch (λ db. find domain db.settings) Error.crash

abbrev pub differs : Bool → Bool → Bool
differs true b = not b
differs false b = b

abbrev pub moved_registrar : ℕ → Bool → Option RenewalSetting → Bool
moved_registrar fingerprint sandbox none = false
moved_registrar fingerprint sandbox (some s) =
    not (s.provider_fingerprint == fingerprint) || differs s.sandbox sandbox

-- INSERT OR IGNORE INTO domain_renewal_settings
abbrev pub add_setting : ℕ → RenewalSetting → Db → Db
add_setting domain s db = record db {
  settings =
      if is_some (find domain db.settings) then db.settings else db.settings ++ (domain, s) ∷ [];
}

abbrev pub is_on : Option Bool → Bool
is_on none = false
is_on (some b) = b

module _ (fingerprint : ℕ) (sandbox : Bool) where
  abbrev pub first_setting : ℕ → ℕ → Bool → RenewalQuote → RenewalSetting
  first_setting w expiry enabled q = record {
    workspace_id = w;
    enabled = enabled;
    max_cost_cents = q.cost_cents + q.years * domain_margin;
    expires_at = expiry;
    managed = false;
    provider_fingerprint = fingerprint;
    sandbox = sandbox;
  }

  -- The branch of a domain without a row.
  unfoldable pub enrol : ℕ → ℕ → ℕ → Bool → Response RenewalQuote → Action (Unit {0})
  enrol w domain expiry enabled quoted = do
    q ← respond quoted
    modify (add_setting domain (first_setting w expiry enabled q))
    _ ← link w
    modify (notify (record { head = KeyHead.enrolled; name = domain; first = 0; second = 0 }) w)

  abbrev pub enrol_new :
      ℕ → ℕ → ℕ → Bool → Response RenewalQuote → Option RenewalSetting → Action (Unit {0})
  enrol_new w domain expiry enabled quoted none = enrol w domain expiry enabled quoted
  enrol_new w domain expiry enabled quoted (some s) = pure tt

-- The registrar's own renewal is switched off, and its expiry read again.
abbrev pub switch_off : Bool → ℕ → Response DomainInfo → Action ℕ
switch_off true expiry disabled = do
  info ← respond disabled
  or_raise info.expires (registrar_error Code.bad_expiry)
switch_off false expiry disabled = pure expiry

abbrev pub managed_until : ℕ → RenewalSetting → RenewalSetting
managed_until expiry s = record s { managed = true; expires_at = expiry }

-- `sync_domain`: `found`, `quoted` and `disabled` are what the registrar answers, if it is asked, to
-- `domain_info`, `renewal_quote` and `disable_auto_renew`.
unfoldable pub sync_domain :
    (ℕ → Bool)
    → ℕ
    → Bool
    → Response DomainInfo
    → Response RenewalQuote
    → Response DomainInfo
    → ℕ
    → ℕ
    → Action RenewalSetting
unfolding enrol
sync_domain platform fingerprint sandbox found quoted disabled domain w = do
  allocation platform w domain
  current ← gets (λ db. find domain db.settings)
  raise_if (moved_registrar fingerprint sandbox current) (registrar_error Code.registrar_changed)
  info ← respond found
  expiry ← or_raise info.expires (registrar_error Code.bad_expiry)
  raise_if (not (info.active && (is_some info.auto_renew && info.api_access)))
      (registrar_error Code.domain_inactive)
  enrol_new fingerprint sandbox w domain expiry (is_on info.auto_renew) quoted current
  until ← switch_off (is_on info.auto_renew) expiry disabled
  modify (set_setting domain (managed_until until))
  fetch (λ db. find domain db.settings) Error.crash
