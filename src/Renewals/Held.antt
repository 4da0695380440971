-- ===== src/Renewals/Held.antt =====
-- The credit that a submitted renewal holds: what follows its reservation keeps it or returns it.
use boathouse_cloud.Prelude.{
  ℕ, ◌≡◌, refl, ◌∙◌, Bool, true, false, Option, none, some, arith, if◌then◌else◌,
}
use boathouse_cloud.Prelude.Int.{pos, ◌+ℤ◌, int_laws}
use boathouse_cloud.Prelude.Table.{find, find-update}
use boathouse_cloud.Prelude.Exec.{
  Run, ok, err, raise, ◌>>◌, Ensures, Ensures-ok, Ensures-bind, Ensures-always, Ensures-map,
  Ensures-raise_if, Ensures-atomically, after_modify, after_raise_if, after_raise_when, after_fetch,
  Always, Always-bind, Always-atomically, Always-raise_if, Always-or_raise, Always-modify,
  Always-fetch,
}
use boathouse_cloud.Db.{Db, Workspace, Renewal, Proof, Code, Error}
use boathouse_cloud.Db.Ledger.{write_line}
use boathouse_cloud.Purchases.Finish.{uncertain_error, Answer, answer, raised}
use boathouse_cloud.Renewals.Notices.{allocation, notify}
use boathouse_cloud.Renewals.Policy.{is_submitted}
use boathouse_cloud.Renewals.Plan.{set_renewal}
use boathouse_cloud.Renewals.Reserve.{renewal_ref}
use boathouse_cloud.Renewals.Execute.{
  renewal_release_ref, refund_line, to_rejected, refund_by, refund_body, refund, to_unclear,
  mark_unclear, to_renewed, is_renewed, settle_open, settle_renewal_body, send_receipt,
  settle_renewal, conclude_renewal, is_rejected, unclear_after, send_renewal,
}
use boathouse_cloud.Renewals.Credit.{
  holds_renewal, owed, IsFunded, same-IsFunded, keep-IsFunded, charge_lines-IsFunded, move-IsFunded,
}

-- The credit of the renewal is reserved or spent, at the total of the row that was read.
pub record IsSubmitted (oid total : ℕ) (db : Db) : Type 0 where
  pub funded : IsFunded db
  pub row : Renewal
  pub found : find oid db.renewals ≡ some row
  pub held : holds_renewal row.state ≡ true
  pub same_total : row.total_cents ≡ total

-- A test that changes nothing.
pub allocation-Ensures {ℓ} :
    {P : Db → Type ℓ} (platform : ℕ → Bool) (w domain : ℕ) (db : Db)
    → P db
    → Ensures (λ _ t. P t) (allocation platform w domain db)
unfolding allocation
allocation-Ensures platform w domain db h = after_raise_if _ _ _ λ _. Ensures-raise_if _ _ _ λ _. h

-- A change of the renewal's own row that keeps its credit.
pub set_renewal-IsSubmitted :
    (oid total : ℕ) (f : Renewal → Renewal) (db : Db)
    → ((r : Renewal) → holds_renewal r.state ≡ true → holds_renewal (f r).state ≡ true)
    → ((r : Renewal) → (f r).total_cents ≡ r.total_cents)
    → IsSubmitted oid total db
    → IsSubmitted oid total (set_renewal oid f db)
set_renewal-IsSubmitted oid total f db holds keeps h = record {
  funded =
      keep-IsFunded oid f db
        (λ r e. ground (arith, holds h.row h.held, keeps h.row, h.held, h.found, e)) h.funded;
  row = f h.row;
  found = ground (arith, find-update oid oid f db.renewals, h.found);
  held = holds h.row h.held;
  same_total = keeps h.row ∙ h.same_total;
}

-- A statement on other tables, or on the ledger's kinds.
pub other-IsSubmitted :
    {oid total : ℕ} {db after : Db}
    → after.renewals ≡ db.renewals
    → IsFunded after
    → IsSubmitted oid total db
    → IsSubmitted oid total after
other-IsSubmitted rs s h = record {
  funded = s;
  row = h.row;
  found = rw rs h.found;
  held = h.held;
  same_total = h.same_total;
}

pub unclear-IsSubmitted :
    (oid total : ℕ) (db : Db)
    → IsSubmitted oid total db
    → IsSubmitted oid total (set_renewal oid to_unclear db)
unclear-IsSubmitted oid total db h =
    set_renewal-IsSubmitted oid total to_unclear db (λ r e. ground arith) (λ r. ground arith) h

returned_total :
    (r : Renewal) (total : ℕ)
    → holds_renewal r.state ≡ true
    → r.total_cents ≡ total
    → owed (some r) +ℤ pos total ≡ pos 0
returned_total r total held e = rw (held, e) (omega int_laws)

-- Returning the credit.
module _ (now oid : ℕ) (row : Renewal) where
  returned-IsFunded :
      (ws : Workspace) (db : Db)
      → IsSubmitted oid row.total_cents db
      → find row.workspace_id db.workspaces ≡ some ws
      → IsFunded (set_renewal oid to_rejected (write_line (refund_line now oid row ws) db))
  returned-IsFunded ws db h there =
      move-IsFunded oid h.row to_rejected (refund_line now oid row ws) (renewal_release_ref oid) ws
        db h.funded h.found there refl refl (ground arith) refl (λ k. refl)
        (returned_total h.row row.total_cents h.held h.same_total)

  refunded :
      (unsettled : Bool) (db : Db)
      → IsSubmitted oid row.total_cents db
      → Ensures (λ _ t. IsFunded t) (refund_by now oid row unsettled db)
  refunded false db h = Ensures-ok _ _ _ h.funded
  refunded true db h = after_fetch _ _ _ λ ws there. Ensures-bind _ (
      after_raise_when _ _ _
        λ _. Ensures-ok _ _ _ (Ensures-ok _ _ _ (returned-IsFunded ws db h there)))

  refund-IsFunded :
      (db : Db) → IsSubmitted oid row.total_cents db → Always IsFunded (refund now oid row db)
  unfolding refund refund_body
  refund-IsFunded db h =
      Always-atomically _ h.funded
        (after_fetch _ _ _ λ current _. refunded (is_submitted current.state) db h)

-- Settling it.
module _ (oid : ℕ) (row : Renewal) (platform : ℕ → Bool) where
  abbrev Holds : Db → Type 0
  Holds = IsSubmitted oid row.total_cents

  settled_open :
      (expiry : ℕ) (before : Bool) (db : Db)
      → Holds db
      → Ensures (λ _ t. Holds t) (settle_open platform oid row expiry before db)
  settled_open expiry true db h = Ensures-ok _ _ _ h
  settled_open expiry false db h = Ensures-bind _ (
      Ensures-map
        (λ _ t k.
          let charged =
            other-IsSubmitted refl (charge_lines-IsFunded (renewal_ref oid) t k.funded) k in
          let renewed =
            set_renewal-IsSubmitted oid row.total_cents to_renewed _ (λ r e. refl) (λ r. refl)
              charged in
          after_modify _ _ (
            after_modify _ _ (
              after_modify _ _ (
                Ensures-ok _ _ _ (
                  other-IsSubmitted refl (same-IsFunded refl refl refl refl renewed.funded)
                    renewed)))))
        (allocation-Ensures {P = Holds} platform row.workspace_id row.domain db h))

  receipt-Holds : (done : Bool) (db : Db) → Holds db → Always Holds (send_receipt oid row done db)
  unfolding notify
  receipt-Holds false db h = record { at_end = h }
  receipt-Holds true db h = Always-fetch _ _ _ h λ ws _. record {
    at_end = other-IsSubmitted refl (same-IsFunded refl refl refl refl h.funded) h;
  }

  body-Holds :
      (expiry : ℕ) (db : Db)
      → Holds db
      → Ensures (λ _ t. Holds t) (settle_renewal_body platform oid row expiry db)
  unfolding settle_renewal_body
  body-Holds expiry db h =
      after_fetch _ _ _ λ current _. settled_open expiry (is_renewed current.state) db h

  settle_renewal-IsSubmitted :
      (p : Proof) (db : Db) → Holds db → Always Holds (settle_renewal platform oid row p db)
  unfolding settle_renewal
  settle_renewal-IsSubmitted p db h =
      let noted =
        set_renewal-IsSubmitted oid row.total_cents (λ r. record r { provider_result = some p }) db
          (λ r e. e) (λ r. refl) h in
      Always-modify _ _ noted (
        Always-raise_if _ _ _ noted λ _. Always-or_raise _ _ _ noted λ expiry _.
          Always-raise_if _ _ _ noted λ _.
            Always-bind _ _ (Always-atomically _ noted (body-Holds expiry _ noted)) (
              Ensures-map (λ done u k. receipt-Holds done u k)
                (Ensures-atomically _ (body-Holds expiry _ noted))))

  conclude-IsSubmitted :
      (p : Proof) (db : Db) → Holds db → Always Holds (conclude_renewal platform oid row p db)
  conclude-IsSubmitted p db h = go (p.pending)
    where
      go :
          (b : Bool)
          → Always Holds (
              (if b
                  then raise (uncertain_error Code.renewal_pending)
                  else settle_renewal platform oid row p)
                db)
      go true = record { at_end = h }
      go false = settle_renewal-IsSubmitted p db h

-- The `try` statement.
module _ (platform : ℕ → Bool) (now oid : ℕ) (row : Renewal) where
  unclear-IsFunded :
      (e : Error) (db : Db)
      → IsSubmitted oid row.total_cents db
      → Always {A = Unit {0}} IsFunded ((mark_unclear oid >> raise e) db)
  unfolding mark_unclear
  unclear-IsFunded e db h =
      let marked = (unclear-IsSubmitted oid row.total_cents db h).funded in
      Always-modify _ _ marked (record { at_end = marked })

  after-IsFunded :
      (x : Run Db Error (Unit {0}))
      → Always (IsSubmitted oid row.total_cents) x
      → Always IsFunded (unclear_after oid x)
  after-IsFunded (ok a db) h = record { at_end = h.at_end.funded }
  after-IsFunded (err e db) h = unclear-IsFunded e db h.at_end

  rejected-IsFunded :
      (certain : Bool) (e : Error) (db : Db)
      → IsSubmitted oid row.total_cents db
      → Always {A = Unit {0}} IsFunded
          ((if certain then refund now oid row >> raise e else mark_unclear oid >> raise e) db)
  rejected-IsFunded false e db h = unclear-IsFunded e db h
  rejected-IsFunded true e db h =
      let kept = refund-IsFunded now oid row db h in
      Always-bind _ _ kept
        (Ensures-map (λ u t k. record { at_end = k }) (Ensures-always IsFunded _ kept.at_end))

  pub send_renewal-IsFunded :
      (retrying : Bool) (known : Option Proof) (a : Answer) (db : Db)
      → IsSubmitted oid row.total_cents db
      → Always IsFunded (send_renewal platform now oid row retrying known a db)
  unfolding send_renewal
  send_renewal-IsFunded retrying (some p) a db h =
      after-IsFunded _ (conclude-IsSubmitted oid row platform p db h)
  send_renewal-IsFunded retrying none (answer p) db h =
      after-IsFunded _ (conclude-IsSubmitted oid row platform p db h)
  send_renewal-IsFunded retrying none (raised e) db h =
      rejected-IsFunded (is_rejected retrying e) e db h
