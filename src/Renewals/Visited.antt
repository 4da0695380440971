-- ===== src/Renewals/Visited.antt =====
-- `process_domain` keeps the books and every credit.
use boathouse_cloud.Prelude.{
  ℕ, ◌+◌, ◌*◌, ◌≡◌, refl, Bool, true, false, Option, none, some, is_some, arith, inl, inr,
  Bool-cases, ltb,
}
use boathouse_cloud.Prelude.Table.{find, first_row}
use boathouse_cloud.Prelude.Exec.{
  Run, ◌>>=◌, ◌>>◌, Ensures-ok, Ensures-err, Ensures-always, after_gets, Always, Always-bind,
  Always-atomically, Always-raise_if, Always-raise_when, Always-or_raise, Always-modify,
  Always-fetch, Always-fetched, Always-test, Always-then,
}
use boathouse_cloud.Prelude.Table.Keys.{find-first_row}
use boathouse_cloud.Db.{Db, Renewal, RenewalSetting, Error}
use boathouse_cloud.Renewals.Notices.{day_seconds, allocation, notify}
use boathouse_cloud.Renewals.Policy.{
  Response, got, failed, respond, DomainInfo, RenewalQuote, enrol, enrol_new, switch_off,
  sync_domain, is_on,
}
use boathouse_cloud.Renewals.Plan.{
  cancelled, keeps_plan, planned, in_cycle, insert_renewal, plan_over, plan_body, plan,
}
use boathouse_cloud.Renewals.Reserve.{renew_days}
use boathouse_cloud.Renewals.Execute.{is_renewed}
use boathouse_cloud.Renewals.Worker.{
  notice_days, Visit, renew_due, plan_renewal, follow_policy, visit_domain, process_by,
  process_domain,
}
use boathouse_cloud.Renewals.Credit.{
  holds_renewal, IsFunded, same-IsFunded, keep-IsFunded, insert-IsFunded,
}
use boathouse_cloud.Renewals.Held.{allocation-Ensures}
use boathouse_cloud.Renewals.Sent.{execute-IsFunded}

module _ (oid : ℕ) (r : Renewal) (waits : holds_renewal r.state ≡ false) where
  insert_renewal-IsFunded : (db : Db) → IsFunded db → Always IsFunded (insert_renewal oid r db)
  unfolding insert_renewal
  insert_renewal-IsFunded db h = Always-raise_when _ _ _ h λ new. Always-raise_when _ _ _ h λ _.
      let made = insert-IsFunded oid r db (no_row (find oid db.renewals) new) waits h in
      Always-modify _ _ made (Always-fetch _ _ _ made λ row _. record { at_end = made })
    where
      no_row : (o : Option Renewal) → is_some o ≡ false → o ≡ none
      no_row o e = ground arith

module _ (oid domain : ℕ) (p : RenewalSetting) (q : RenewalQuote) where
  over-IsFunded :
      (o : Option (ℕ × Renewal)) (db : Db)
      → IsFunded db
      → first_row (in_cycle domain p.expires_at) db.renewals ≡ o
      → Always IsFunded (plan_over oid domain p q o db)
  over-IsFunded none db h e = insert_renewal-IsFunded oid (planned domain p q) refl db h
  over-IsFunded (some (i, r)) db h e = elim (Bool-cases (keeps_plan q r)) [
    | inl same ↦ rw same (record { at_end = h })
    | inr moved ↦ rw moved (
        let dropped =
          keep-IsFunded i cancelled db
            (λ v e'.
              ground
                (arith, find-first_row (in_cycle domain p.expires_at) db.renewals i r h.keys e))
            h in
        Always-modify _ _ dropped (insert_renewal-IsFunded oid (planned domain p q) refl _ dropped))
  ]

  plan-IsFunded : (db : Db) → IsFunded db → Always IsFunded (plan oid domain p q db)
  unfolding plan plan_body
  plan-IsFunded db h = Always-atomically _ h (
      after_gets (λ t. first_row (in_cycle domain p.expires_at) t.renewals) _
        (Ensures-always IsFunded _ (over-IsFunded _ db h refl).at_end))

respond-IsFunded :
    {A B : Type 0} (x : Response A) (f : A → Db → Run Db Error B) (db : Db)
    → IsFunded db
    → ((a : A) → Always IsFunded (f a db))
    → Always IsFunded ((respond x >>= f) db)
respond-IsFunded (got a) f db h k = Always-bind _ f (record { at_end = h }) (Ensures-ok _ _ _ (k a))
respond-IsFunded (failed e) f db h k = Always-bind _ f (record { at_end = h }) (Ensures-err _ _ _)

allocation-IsFunded :
    {B : Type 0} (platform : ℕ → Bool) (w domain : ℕ) (k : Db → Run Db Error B) (db : Db)
    → IsFunded db
    → Always IsFunded (k db)
    → Always IsFunded ((allocation platform w domain >> k) db)
unfolding allocation
allocation-IsFunded platform w domain k db h rest =
    Always-bind _ _ (Always-raise_if _ _ _ h λ _. Always-test _ _ db h)
      (allocation-Ensures {P = λ t. Always IsFunded (k t)} platform w domain db rest)

module _ (fingerprint : ℕ) (sandbox : Bool) where
  enrolled-IsFunded :
      (w domain expiry : ℕ) (on : Bool) (x : Response RenewalQuote) (o : Option RenewalSetting)
      (db : Db)
      → IsFunded db
      → Always IsFunded (enrol_new fingerprint sandbox w domain expiry on x o db)
  unfolding enrol notify
  enrolled-IsFunded w domain expiry on x (some s) db h = record { at_end = h }
  enrolled-IsFunded w domain expiry on x none db h = respond-IsFunded x _ db h λ q.
      let added = same-IsFunded refl refl refl refl h in
      Always-modify _ _ added (
        Always-fetch _ _ _ added
          λ ws _. record { at_end = same-IsFunded refl refl refl refl added })

switched-IsFunded :
    (on : Bool) (expiry : ℕ) (x : Response DomainInfo) (db : Db)
    → IsFunded db
    → Always IsFunded (switch_off on expiry x db)
switched-IsFunded false expiry x db h = record { at_end = h }
switched-IsFunded true expiry x db h =
    respond-IsFunded x _ db h λ info. Always-fetched (info.expires) _ db h

module _ (platform : ℕ → Bool) (fingerprint : ℕ) (sandbox : Bool) (v : Visit) (domain w : ℕ) where
  sync_domain-IsFunded :
      (db : Db)
      → IsFunded db
      → Always IsFunded
          (sync_domain platform fingerprint sandbox v.found v.first_quote v.disabled domain w db)
  unfolding sync_domain
  sync_domain-IsFunded db h = allocation-IsFunded platform w domain _ db h (
      Always-bind _ _ (record { at_end = h })
        (Ensures-ok _ _ _ (
          Always-raise_if _ _ _ h λ _. respond-IsFunded v.found _ db h λ info.
            Always-or_raise _ _ _ h λ expiry _. Always-raise_if _ _ _ h λ _.
              Always-then _ _
                (enrolled-IsFunded fingerprint sandbox w domain expiry (is_on info.auto_renew)
                  v.first_quote (find domain db.settings) db h)
                λ _ t k.
                  Always-then _ _ (switched-IsFunded (is_on info.auto_renew) expiry v.disabled t k)
                    λ until u j.
                      let managed = same-IsFunded refl refl refl refl j in
                      Always-modify _ _ managed (Always-fetched _ _ _ managed))))

  renew_due-IsFunded :
      (p : RenewalSetting) (planned_row : ℕ × Renewal) (db : Db)
      → IsFunded db
      → Always IsFunded (renew_due platform fingerprint sandbox v domain w p planned_row db)
  unfolding renew_due
  renew_due-IsFunded p (oid, row) db h = Always-raise_if _ _ _ h λ _.
      elim (Bool-cases (ltb (v.now + renew_days * day_seconds) p.expires_at)) [
        | inl early ↦ rw early (record { at_end = h })
        | inr due ↦ rw due (
            Always-raise_when _ _ _ h λ _. respond-IsFunded v.dried _ db h λ d.
              Always-raise_if _ _ _ h
                λ _. execute-IsFunded platform fingerprint sandbox v.now oid v.renewal db h)
      ]

  plan_renewal-IsFunded :
      (p : RenewalSetting) (db : Db)
      → IsFunded db
      → Always IsFunded (plan_renewal platform fingerprint sandbox v domain w p db)
  unfolding plan_renewal notify
  plan_renewal-IsFunded p db h = Always-raise_if _ _ _ h λ _. respond-IsFunded v.quoted _ db h λ q.
      Always-then _ _ (plan-IsFunded v.ident domain p q db h) λ row t k.
        elim (Bool-cases (is_renewed (row.1).state)) [
          | inl done ↦ rw done (record { at_end = k })
          | inr todo ↦ rw todo (
              Always-fetch _ _ _ k λ ws _.
                let noticed = same-IsFunded refl refl refl refl k in
                Always-modify _ _ noticed (renew_due-IsFunded p row _ noticed))
        ]

  policy-IsFunded :
      (p : RenewalSetting) (on : Bool) (db : Db)
      → IsFunded db
      → Always IsFunded (follow_policy platform fingerprint sandbox v domain w p on db)
  unfolding notify
  policy-IsFunded p true db h = plan_renewal-IsFunded p db h
  policy-IsFunded p false db h =
      Always-fetch _ _ _ h λ ws _. record { at_end = same-IsFunded refl refl refl refl h }

  visit_domain-IsFunded :
      (db : Db)
      → IsFunded db
      → Always IsFunded (visit_domain platform fingerprint sandbox v domain w db)
  unfolding visit_domain
  visit_domain-IsFunded db h = Always-then _ _ (sync_domain-IsFunded db h) λ p t k.
      elim (Bool-cases (ltb (v.now + notice_days * day_seconds) p.expires_at)) [
        | inl early ↦ rw early (record { at_end = k })
        | inr near ↦ rw near (policy-IsFunded p (p.enabled) t k)
      ]

  pub process_domain-IsFunded :
      (db : Db)
      → IsFunded db
      → Always IsFunded (process_domain platform fingerprint sandbox v domain w db)
  unfolding process_domain
  process_domain-IsFunded db h = Always-bind _ _ (record { at_end = h }) (Ensures-ok _ _ _ (go _))
    where
      go :
          (o : Option (ℕ × Renewal))
          → Always IsFunded (process_by platform fingerprint sandbox v domain w o db)
      go none = visit_domain-IsFunded db h
      go (some (oid, r)) = execute-IsFunded platform fingerprint sandbox v.now oid v.renewal db h
