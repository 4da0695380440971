-- ===== src/Renewals/Sent.antt =====
-- `execute` of a renewal keeps the books and every credit.
use boathouse_cloud.Prelude.{
  ℕ, ◌≡◌, refl, Bool, true, false, ◌||◌, Option, none, some, arith, inl, inr, Bool-cases, ltb,
  if◌then◌else◌,
}
use boathouse_cloud.Prelude.Int.{int_laws}
use boathouse_cloud.Prelude.Table.{find, find-update}
use boathouse_cloud.Prelude.Exec.{
  Ensures, Ensures-ok, Ensures-err, Ensures-bind, Ensures-map, Ensures-atomically, Ensures-raise_if,
  after_modify, after_gets, after_raise_if, after_raise_when, after_fetch, Always, Always-bind,
  Always-atomically,
}
use boathouse_cloud.Db.{Db, Workspace, Renewal, RenewalState, Proof}
use boathouse_cloud.Db.Ledger.{write_line}
use boathouse_cloud.Purchases.Finish.{Answer}
use boathouse_cloud.Renewals.Policy.{is_submitted}
use boathouse_cloud.Renewals.Notices.{owners_of}
use boathouse_cloud.Renewals.Plan.{is_waiting, advance_key, set_renewal}
use boathouse_cloud.Renewals.Reserve.{
  renewal_ref, renewal_line, is_renewable, reserve_waiting, check_replay, reserve_again,
  to_processing, start_renewal, reserve_renewal_open, reserve_renewal_body, reserve_renewal,
  were_notified,
}
use boathouse_cloud.Renewals.Execute.{send_reserved, execute}
use boathouse_cloud.Renewals.Credit.{holds_renewal, IsFunded, move-IsFunded}
use boathouse_cloud.Renewals.Held.{
  IsSubmitted, allocation-Ensures, set_renewal-IsSubmitted, send_renewal-IsFunded,
}

free-is_waiting : (st : RenewalState) → is_waiting st ≡ true → holds_renewal st ≡ false
free-is_waiting st e = ground arith

holds-is_submitted : (st : RenewalState) → is_submitted st ≡ true → holds_renewal st ≡ true
holds-is_submitted st e = ground arith

-- What a reservation returns: the row with its credit held, or nothing.
abbrev Kept : ℕ → Option (Renewal × Bool) → Db → Type 0
Kept oid none t = IsFunded t
Kept oid (some (row, again)) t = IsSubmitted oid row.total_cents t

module _ (now oid : ℕ) (r : Renewal) (db : Db) (funded : IsFunded db)
    (found : find oid db.renewals ≡ some r) where
  -- Before the row is marked.
  abbrev Ready : Bool → Db → Type 0
  Ready false t = IsFunded t
  Ready true t = IsSubmitted oid r.total_cents (set_renewal oid (to_processing now) t)

  reserved-Ready :
      (ws : Workspace)
      → is_waiting r.state ≡ true
      → find r.workspace_id db.workspaces ≡ some ws
      → Ready true (write_line (renewal_line now oid r ws) db)
  reserved-Ready ws waits there = record {
    funded =
        move-IsFunded oid r (to_processing now) (renewal_line now oid r ws) (renewal_ref oid) ws db
          funded found there (omega int_laws) refl (ground arith) refl (λ k. refl)
          (rw (free-is_waiting r.state waits) (omega int_laws));
    row = to_processing now r;
    found = ground (arith, find-update oid oid (to_processing now) db.renewals, found);
    held = refl;
    same_total = refl;
  }

  waiting-Ready : is_waiting r.state ≡ true → Ensures Ready (reserve_waiting now oid r db)
  unfolding reserve_waiting
  waiting-Ready waits = after_fetch _ _ _ λ p _. elim (Bool-cases (is_renewable now r p)) [
    | inr late ↦ rw late (Ensures-ok Ready false db funded)
    | inl due ↦ rw due (
        after_raise_if _ _ _ λ _.
          after_gets
            (λ t. were_notified now (advance_key r) t.notices (owners_of r.workspace_id t.owners)) _
            (elim (Bool-cases
              (were_notified now (advance_key r) db.notices (owners_of r.workspace_id db.owners))) [
                | inr no_notice ↦ rw no_notice (Ensures-ok Ready false db funded)
                | inl ready ↦ rw ready (
                    after_fetch _ _ _ λ ws there. after_raise_if _ _ _ λ _. Ensures-bind _ (
                      after_raise_when _ _ _ λ _.
                        Ensures-ok _ _ _ (Ensures-ok Ready true _ (reserved-Ready ws waits there))))
              ]))
  ]

  submitted : is_submitted r.state ≡ true → IsSubmitted oid r.total_cents db
  submitted e = record {
    funded = funded;
    row = r;
    found = found;
    held = holds-is_submitted r.state e;
    same_total = refl;
  }

  replay-Ready :
      (known : Option Proof) (started : Option ℕ)
      → is_submitted r.state ≡ true
      → Ensures (λ _ t. Ready true t) (check_replay now known started db)
  replay-Ready known started e = go known started
    where
      marked : Ready true db
      marked =
          set_renewal-IsSubmitted oid r.total_cents (to_processing now) db (λ o h. refl) (λ o. refl)
            (submitted e)

      go :
          (p : Option Proof) (t : Option ℕ)
          → Ensures (λ _ u. Ready true u) (check_replay now p t db)
      go (some p) t = Ensures-ok _ _ _ marked
      go none none = Ensures-err _ _ _
      go none (some t) = Ensures-raise_if _ _ _ λ _. marked

  again-Ready : is_submitted r.state ≡ true → Ensures Ready (reserve_again now r db)
  again-Ready e = elim (Bool-cases (ltb now r.lease_until)) [
    | inl leased ↦ rw leased (Ensures-ok Ready false db funded)
    | inr free ↦ rw free (
        Ensures-bind _ (
          Ensures-map (λ _ t k. Ensures-ok Ready true t k)
            (replay-Ready r.provider_result r.started e)))
  ]

  started-Kept : (b : Bool) (t : Db) → Ready b t → Ensures (Kept oid) (start_renewal now oid r b t)
  started-Kept false t h = Ensures-ok (Kept oid) none t h
  started-Kept true t h =
      after_modify _ _ (Ensures-ok (Kept oid) (some (r, is_submitted r.state)) _ h)

  branch-Ready :
      is_submitted r.state || is_waiting r.state ≡ true
      → Ensures Ready
          ((if is_submitted r.state then reserve_again now r else reserve_waiting now oid r) db)
  branch-Ready e = elim (Bool-cases (is_submitted r.state)) [
    | inl y ↦ rw y (again-Ready y)
    | inr n ↦ rw n (waiting-Ready (ground arith))
  ]

  open-Kept :
      (platform : ℕ → Bool) (fingerprint : ℕ) (sandbox : Bool)
      → is_submitted r.state || is_waiting r.state ≡ true
      → Ensures (Kept oid) (reserve_renewal_open platform fingerprint sandbox now oid r db)
  unfolding reserve_renewal_open
  open-Kept platform fingerprint sandbox e =
      after_raise_if _ _ _
        λ _. Ensures-bind _ (Ensures-map (λ b t h. started-Kept b t h) (branch-Ready e))

module _ (platform : ℕ → Bool) (fingerprint : ℕ) (sandbox : Bool) (now oid : ℕ) where
  body-Kept :
      (db : Db)
      → IsFunded db
      → Ensures (Kept oid) (reserve_renewal_body platform fingerprint sandbox now oid db)
  unfolding reserve_renewal_body
  body-Kept db h = after_fetch _ _ _ λ r found. Ensures-bind _ (
      Ensures-map
        (λ _ u k. elim (Bool-cases (is_submitted r.state || is_waiting r.state)) [
          | inr closed ↦ rw closed (Ensures-ok (Kept oid) none u k.0)
          | inl unfinished ↦
              rw unfinished (open-Kept now oid r u k.0 k.1 platform fingerprint sandbox unfinished)
        ])
        (allocation-Ensures {P = λ t. IsFunded t × (find oid t.renewals ≡ some r)} platform
          r.workspace_id r.domain db (h, found)))

  Kept-IsFunded : (o : Option (Renewal × Bool)) (t : Db) → Kept oid o t → IsFunded t
  Kept-IsFunded none t k = k
  Kept-IsFunded (some (row, again)) t k = k.funded

  sent-IsFunded :
      (a : Answer) (o : Option (Renewal × Bool)) (t : Db)
      → Kept oid o t
      → Always IsFunded (send_reserved platform now oid a o t)
  sent-IsFunded a none t k = record { at_end = k }
  sent-IsFunded a (some (row, again)) t k =
      send_renewal-IsFunded platform now oid row again row.provider_result a t k

  pub execute-IsFunded :
      (a : Answer) (db : Db)
      → IsFunded db
      → Always IsFunded (execute platform fingerprint sandbox now oid a db)
  unfolding execute reserve_renewal
  execute-IsFunded a db h =
      Always-bind _ _
        (Always-atomically _ h (Ensures-map (λ o t k. Kept-IsFunded o t k) (body-Kept db h)))
        (Ensures-map (λ o t k. sent-IsFunded a o t k) (Ensures-atomically _ (body-Kept db h)))
