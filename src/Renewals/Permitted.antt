-- ===== src/Renewals/Permitted.antt =====
-- When a renewal may start: `_reserve` reserves credit only for a renewal that its owner allowed, in
-- time, within the limit and the balance, and after every owner had notice of the price.
use boathouse_cloud.Prelude.{
  ℕ, ◌+◌, ◌*◌, ◌≤◌, ◌<◌, ◌≡◌, ◌≢◌, refl, Bool, true, false, ◌||◌, Option, none, some, List, [], ◌∷◌,
  arith, inl, inr, Bool-cases, ltb,
}
use boathouse_cloud.Prelude.Int.{pos, ◌≤ℤ◌}
use boathouse_cloud.Prelude.Table.{find}
use boathouse_cloud.Prelude.Exec.{
  Ensures, Ensures-ok, Ensures-err, Ensures-bind, Ensures-map, Ensures-atomically, Ensures-raise_if,
  after_modify, after_gets, after_raise_if, after_raise_when, after_fetch,
}
use boathouse_cloud.Db.{Db, Workspace, Renewal, RenewalSetting, Notice, NoticeKey, Proof}
use boathouse_cloud.Renewals.Notices.{day_seconds, owners_of}
use boathouse_cloud.Renewals.Policy.{is_submitted}
use boathouse_cloud.Renewals.Plan.{advance_key, is_waiting}
use boathouse_cloud.Renewals.Reserve.{
  renew_days, min_notice_days, sent_time, is_ripe, all_ripe, were_notified, is_renewable,
  reserve_waiting, check_replay, reserve_again, start_renewal, reserve_renewal_open,
  reserve_renewal_body, reserve_renewal,
}
use boathouse_cloud.Renewals.Held.{allocation-Ensures}

-- Every address in the list had the notice seven days ago.
abbrev pub Notified : ℕ → NoticeKey → List Notice → List ℕ → Type 0
Notified now k ns [] = Unit
Notified now k ns (e ∷ es) =
    ((t : ℕ) × (sent_time k e ns ≡ some t) × (t + min_notice_days * day_seconds ≤ now))
    × Notified now k ns es

ripe_time :
    (now : ℕ) (o : Option ℕ)
    → is_ripe now o ≡ true
    → (t : ℕ) × (o ≡ some t) × (t + min_notice_days * day_seconds ≤ now)
ripe_time now none h = ground arith
ripe_time now (some t) h = (t, refl, ground arith)

Notified-all_ripe :
    (now : ℕ) (k : NoticeKey) (ns : List Notice) (es : List ℕ)
    → all_ripe now k ns es ≡ true
    → Notified now k ns es
Notified-all_ripe now k ns [] h = tt
Notified-all_ripe now k ns (e ∷ es) h =
    (ripe_time now (sent_time k e ns) (ground arith), Notified-all_ripe now k ns es (ground arith))

pub record IsPermitted (now : ℕ) (db : Db) (r : Renewal) : Type 0 where
  pub setting : RenewalSetting
  pub found : find r.domain db.settings ≡ some setting
  pub enabled : setting.enabled ≡ true
  pub limit : r.total_cents ≤ setting.max_cost_cents
  pub before_expiry : now < r.expires_at
  pub near_expiry : r.expires_at ≤ now + renew_days * day_seconds
  pub owners : owners_of r.workspace_id db.owners ≢ []
  pub notified : Notified now (advance_key r) db.notices (owners_of r.workspace_id db.owners)
  pub workspace : Workspace
  pub payer : find r.workspace_id db.workspaces ≡ some workspace
  pub funds : pos r.total_cents ≤ℤ workspace.balance_cents

-- What `_reserve` returns: nothing, in which case nothing is changed, a renewal that is sent again,
-- or one that may start.
abbrev pub Permitted : ℕ → Db → Option (Renewal × Bool) → Db → Type 0
Permitted now db none t = t ≡ db
Permitted now db (some (r, true)) t = is_submitted r.state ≡ true
Permitted now db (some (r, false)) t = IsPermitted now db r

module _ (now oid : ℕ) (r : Renewal) (db : Db) where
  -- The first result of the two branches.
  abbrev Allowed : Bool → Db → Type 0
  Allowed false t = t ≡ db
  Allowed true t = IsPermitted now db r

  Notified-were_notified :
      (es : List ℕ)
      → were_notified now (advance_key r) db.notices es ≡ true
      → (es ≢ []) × Notified now (advance_key r) db.notices es
  Notified-were_notified [] h = ground arith
  Notified-were_notified (e ∷ es) h =
      (λ q. cc q, Notified-all_ripe now (advance_key r) db.notices (e ∷ es) h)

  waiting-Allowed : Ensures Allowed (reserve_waiting now oid r db)
  unfolding reserve_waiting
  waiting-Allowed = after_fetch _ _ _ λ p there. elim (Bool-cases (is_renewable now r p)) [
    | inr late ↦ rw late (Ensures-ok Allowed false db refl)
    | inl due ↦ rw due (
        after_raise_if _ _ _ λ affordable.
          after_gets
            (λ t. were_notified now (advance_key r) t.notices (owners_of r.workspace_id t.owners)) _
            (elim (Bool-cases
              (were_notified now (advance_key r) db.notices (owners_of r.workspace_id db.owners))) [
                | inr unready ↦ rw unready (Ensures-ok Allowed false db refl)
                | inl ready ↦ rw ready (
                    after_fetch _ _ _ λ ws payer. after_raise_if _ _ _ λ enough. Ensures-bind _ (
                      after_raise_when _ _ _ λ _. Ensures-ok _ _ _ (
                        Ensures-ok Allowed true _ (record {
                          setting = p;
                          found = there;
                          enabled = ground arith;
                          limit = ground arith;
                          before_expiry = ground arith;
                          near_expiry = ground arith;
                          owners = (Notified-were_notified _ ready).0;
                          notified = (Notified-were_notified _ ready).1;
                          workspace = ws;
                          payer = payer;
                          funds = ground arith;
                        }))))
              ]))
  ]

  replay-same :
      (known : Option Proof) (started : Option ℕ)
      → Ensures (λ _ t. t ≡ db) (check_replay now known started db)
  replay-same (some p) started = Ensures-ok _ _ _ refl
  replay-same none none = Ensures-err _ _ _
  replay-same none (some t) = Ensures-raise_if _ _ _ λ _. refl

  abbrev Retried : Bool → Db → Type 0
  Retried b t = t ≡ db

  again-Retried : Ensures Retried (reserve_again now r db)
  again-Retried = elim (Bool-cases (ltb now r.lease_until)) [
    | inl leased ↦ rw leased (Ensures-ok Retried false db refl)
    | inr free ↦ rw free (
        Ensures-bind _ (
          Ensures-map (λ _ t e. Ensures-ok Retried true t e)
            (replay-same r.provider_result r.started)))
  ]

  retried-Permitted :
      is_submitted r.state ≡ true
      → (b : Bool) (t : Db) → t ≡ db
      → Ensures (Permitted now db) (start_renewal now oid r b t)
  retried-Permitted e false t same = Ensures-ok (Permitted now db) none t same
  retried-Permitted e true t same =
      after_modify _ _ (Ensures-ok (Permitted now db) (some (r, is_submitted r.state)) _ (rw e e))

  first-Permitted :
      is_submitted r.state ≡ false
      → (b : Bool) (t : Db) → Allowed b t
      → Ensures (Permitted now db) (start_renewal now oid r b t)
  first-Permitted e false t same = Ensures-ok (Permitted now db) none t same
  first-Permitted e true t allowed =
      after_modify _ _
        (Ensures-ok (Permitted now db) (some (r, is_submitted r.state)) _ (rw e allowed))

  open-Permitted :
      (platform : ℕ → Bool) (fingerprint : ℕ) (sandbox : Bool)
      → Ensures (Permitted now db) (reserve_renewal_open platform fingerprint sandbox now oid r db)
  unfolding reserve_renewal_open
  open-Permitted platform fingerprint sandbox = after_raise_if _ _ _ λ _.
      elim (Bool-cases (is_submitted r.state)) [
        | inl again ↦
            Ensures-bind _
              (rw again (Ensures-map (λ b t e. retried-Permitted again b t e) again-Retried))
        | inr first ↦
            Ensures-bind _
              (rw first (Ensures-map (λ b t e. first-Permitted first b t e) waiting-Allowed))
      ]

module _ (platform : ℕ → Bool) (fingerprint : ℕ) (sandbox : Bool) (now oid : ℕ) (db : Db) where
  body-Permitted :
      Ensures (Permitted now db) (reserve_renewal_body platform fingerprint sandbox now oid db)
  unfolding reserve_renewal_body
  body-Permitted = after_fetch _ _ _ λ r _. Ensures-bind _ (
      Ensures-map
        (λ _ t same. elim (Bool-cases (is_submitted r.state || is_waiting r.state)) [
          | inr closed ↦ rw closed (Ensures-ok (Permitted now db) none t same)
          | inl unfinished ↦
              rw unfinished (rw same (open-Permitted now oid r db platform fingerprint sandbox))
        ])
        (allocation-Ensures {P = λ t. t ≡ db} platform r.workspace_id r.domain db refl))

  -- Where a renewal that waits is reserved, its domain's renewal is enabled, its total is within the
  -- owner's limit and the workspace's balance, the registration has not expired and does so within
  -- 14 days, the workspace has an owner, and every owner was sent the notice of that price at least
  -- 7 days ago; where nothing is reserved, nothing is changed; and only a renewal that was submitted
  -- before is sent again.
  pub reserve_renewal-Permitted :
      Ensures (Permitted now db) (reserve_renewal platform fingerprint sandbox now oid db)
  unfolding reserve_renewal
  reserve_renewal-Permitted = Ensures-atomically _ body-Permitted
