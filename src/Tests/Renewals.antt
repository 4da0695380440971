-- ===== src/Tests/Renewals.antt =====
-- A domain that renews, on a small store.
use boathouse_cloud.Prelude.{
  ℕ, ◌*◌, ◌≡◌, refl, true, false, Bool, Option, none, some, [], ◌∷◌, arith,
}
use boathouse_cloud.Prelude.Int.{pos, ◌+ℤ◌, ◌-ℤ◌}
use boathouse_cloud.Prelude.Exec.{ok, final, Ensures, Always, atomically, ◌>>=◌}
use boathouse_cloud.Db.{Db, Renewal, RenewalSetting, RenewalState, Notice, NoticeKey, Proof, Error}
use boathouse_cloud.Billing.Post.{balance}
use boathouse_cloud.Purchases.Finish.{answer}
use boathouse_cloud.Renewals.Notices.{allocation, notify, notify_host, deliver, flush_notices}
use boathouse_cloud.Renewals.Policy.{got, DomainInfo, RenewalQuote, sync_domain}
use boathouse_cloud.Renewals.Plan.{advance_key, plan}
use boathouse_cloud.Renewals.Reserve.{reserve_renewal}
use boathouse_cloud.Renewals.Execute.{execute}
use boathouse_cloud.Renewals.Worker.{Visit, process_domain, run_once}
use boathouse_cloud.Renewals.Credit.{IsFunded}
use boathouse_cloud.Renewals.Permitted.{Permitted, reserve_renewal-Permitted}
use boathouse_cloud.Renewals.Outbox.{Addressed, flush_notices-Addressed}
use boathouse_cloud.Renewals.Replan.{plan_twice}
use boathouse_cloud.Renewals.Books.{run_once-IsFunded}
use boathouse_cloud.Tests.Money.{store, store-IsBalanced}

-- Now, and ten days later.
abbrev now : ℕ
now = 100 * 86400

abbrev expiry : ℕ
expiry = 110 * 86400

abbrev setting : RenewalSetting
setting = record {
  workspace_id = 1;
  enabled = true;
  max_cost_cents = 600;
  expires_at = expiry;
  managed = true;
  provider_fingerprint = 70;
  sandbox = false;
}

abbrev waiting : Renewal
waiting = record {
  workspace_id = 1;
  domain = 60;
  expires_at = expiry;
  registrar_cents = 300;
  margin_cents = 200;
  total_cents = 500;
  years = 1;
  state = RenewalState.waiting;
  provider_fingerprint = 70;
  sandbox = false;
  started = none;
  lease_until = 0;
  provider_result = none;
}

-- The owner was told eight days ago, and a second notice is due.
abbrev notice : ℕ → Option ℕ → Notice
notice cents sent = record {
  notice_key = advance_key (record waiting { total_cents = cents });
  email = 3;
  workspace_id = some 1;
  is_host = false;
  sent_at = sent;
  lease_until = 0;
}

abbrev renewing : Db
renewing = record store {
  renewals = (20, waiting) ∷ [];
  notices = notice 500 (some (92 * 86400)) ∷ notice 400 none ∷ [];
  owners = (1, 3) ∷ [];
  allocations = (60, 1) ∷ [];
  settings = (60, setting) ∷ [];
}

renewing-IsFunded : IsFunded renewing
unfolding ◌+ℤ◌
renewing-IsFunded = record {
  sound = record {
    books = record { at = store-IsBalanced.at };
    credit = record { at = λ oid o e. ground arith };
  };
  keys = (refl, tt);
  at = λ oid. ground arith;
}

abbrev own_domain : ℕ → Bool
own_domain d = false

abbrev proof : Proof
proof = record {
  success = true;
  pending = false;
  domain = some 60;
  order_id = some 8;
  dry_run = false;
  has_cost = true;
  cost = some 300;
  expiration = some (475 * 86400);
}

abbrev info : DomainInfo
info = record { expires = some expiry; active = true; auto_renew = some false; api_access = true }

abbrev price : RenewalQuote
price = record { cost_cents = 300; years = 1 }

abbrev visit : ℕ → Visit
visit d = record {
  now = now;
  ident = 21;
  found = got info;
  first_quote = got price;
  disabled = got info;
  quoted = got price;
  dried =
      got
        (record { dry_run = true; would_succeed = true; sufficient_funds = true; cost = some 300 });
  renewal = answer proof;
}

abbrev sends : ℕ → NoticeKey → Bool
sends email k = true

abbrev no_digest : Db → Error → ℕ
no_digest db e = 0

renewed :
    balance 1 (final (run_once own_domain 70 false none no_digest visit sends none now renewing))
    ≡ pos 200
unfolding run_once process_domain sync_domain plan execute reserve_renewal allocation notify
    notify_host flush_notices deliver balance atomically ◌>>=◌ ◌+ℤ◌ ◌-ℤ◌
renewed = refl

run_once-IsFunded_example :
    Always IsFunded (run_once own_domain 70 false none no_digest visit sends none now renewing)
run_once-IsFunded_example =
    run_once-IsFunded own_domain 70 false none no_digest visit sends none now renewing
      renewing-IsFunded

reserve_renewal-Permitted_example :
    Ensures (Permitted now renewing) (reserve_renewal own_domain 70 false now 20 renewing)
reserve_renewal-Permitted_example = reserve_renewal-Permitted own_domain 70 false now 20 renewing

flush_notices-Addressed_example :
    Addressed none sends now renewing (flush_notices none sends now renewing).1
flush_notices-Addressed_example = flush_notices-Addressed none sends now renewing

plan_twice_example :
    Ensures (λ row t. plan 22 60 setting price t ≡ ok row t) (plan 21 60 setting price renewing)
plan_twice_example = plan_twice 21 60 setting price 22 renewing
