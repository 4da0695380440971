-- ===== src/Purchases/Outcome.antt =====
-- What follows a reservation keeps the books and the credit, whatever the registrar answers.
use boathouse_cloud.Prelude.{
  ℕ, refl, Bool, true, false, not, ◌&&◌, ◌||◌, Option, none, some, if◌then◌else◌,
}
use boathouse_cloud.Prelude.Exec.{
  Run, ok, err, raise, ◌>>◌, Ensures-always, Ensures, Ensures-ok, Ensures-map, after_modify,
  after_raise_when, after_fetch, Always, Always-bind, Always-atomically, Always-raise_if,
  Always-modify,
}
use boathouse_cloud.Db.{Db, DomainOperation, PurchaseState, Proof, Code, Error}
use boathouse_cloud.Purchases.Reserve.{domain_ref}
use boathouse_cloud.Purchases.Finish.{
  set_purchase, to_uncertain, mark_uncertain, release, settle_state, settle_body, settle, conclude,
  to_purchased, Answer, answer, raised, answered, recovered, buy_reserved,
}
use boathouse_cloud.Purchases.Holding.{
  IsSound, IsHolding, set_purchase-IsHolding, other-IsHolding, same-IsSound, charge_lines-IsSound,
  mark_uncertain-IsHolding, release-IsSound,
}

module _ (oid : ℕ) (row : DomainOperation) (p : Proof) where
  abbrev Holds : Db → Type 0
  Holds = IsHolding oid row.total_cents

  module _ (under : ℕ → ℕ → Bool) where
    settled :
        (st : PurchaseState) (db : Db)
        → Holds db
        → Ensures (λ _ t. Holds t) (settle_state under oid row p st db)
    settled PurchaseState.purchased db h = Ensures-ok _ _ _ h
    settled _ db h = after_raise_when _ _ _ λ _. after_raise_when _ _ _ λ _.
        after_raise_when _ _ _ λ _. after_modify _ _ (
          after_modify _ _ (
            after_modify _ _ (
              after_raise_when _ _ _ λ _. Ensures-ok _ _ _ (
                set_purchase-IsHolding oid row.total_cents to_purchased _ (λ o e. refl) (λ o. refl)
                  (other-IsHolding refl
                    (same-IsSound refl refl refl (charge_lines-IsSound (domain_ref oid) db h.sound))
                    h)))))

    settle-IsHolding : (db : Db) → Holds db → Always Holds (settle under oid row p db)
    unfolding settle settle_body
    settle-IsHolding db h =
        let noted =
          set_purchase-IsHolding oid row.total_cents (λ o. record o { provider_result = some p }) db
            (λ o e. e) (λ o. refl) h in
        Always-modify _ _ noted (
          Always-raise_if _ _ _ noted λ _.
            Always-atomically _ noted
              (after_fetch _ _ _ λ current _. settled current.state _ noted))

    conclude-IsHolding : (db : Db) → Holds db → Always Holds (conclude under oid row p db)
    unfolding mark_uncertain
    conclude-IsHolding db h = go (p.pending)
      where
        marked : Holds (set_purchase oid to_uncertain db)
        marked = mark_uncertain-IsHolding oid row.total_cents db h

        go :
            (pending : Bool)
            → Always Holds (
                (if pending
                    then mark_uncertain oid >> raise (Error.http 409 Code.purchase_pending)
                    else settle under oid row p)
                  db)
        go true = Always-modify _ _ marked (record { at_end = marked })
        go false = settle-IsHolding db h

module _ (under : ℕ → ℕ → Bool) (now oid : ℕ) (row : DomainOperation) where
  answered-IsHolding :
      (known : Option Proof) (a : Answer) (db : Db)
      → IsHolding oid row.total_cents db
      → Always (IsHolding oid row.total_cents) (answered under oid row known a db)
  answered-IsHolding (some p) a db h = conclude-IsHolding oid row p under db h
  answered-IsHolding none (answer p) db h = conclude-IsHolding oid row p under db h
  answered-IsHolding none (raised e) db h = record { at_end = h }

  uncertain-IsSound :
      (e : Error) (db : Db)
      → IsHolding oid row.total_cents db
      → Always {A = Unit {0}} IsSound ((mark_uncertain oid >> raise e) db)
  unfolding mark_uncertain
  uncertain-IsSound e db h =
      let marked = (mark_uncertain-IsHolding oid row.total_cents db h).sound in
      Always-modify _ _ marked (record { at_end = marked })

  recovered-IsSound :
      (retrying : Bool) (x : Run Db Error (Unit {0}))
      → Always (IsHolding oid row.total_cents) x
      → Always IsSound (recovered now oid row retrying x)
  recovered-IsSound retrying (ok a db) h = record { at_end = h.at_end.sound }
  recovered-IsSound retrying (err (Error.http st c) db) h = record { at_end = h.at_end.sound }
  recovered-IsSound retrying (err Error.crash db) h = uncertain-IsSound _ db h.at_end
  recovered-IsSound retrying (err (Error.stripe e) db) h = uncertain-IsSound _ db h.at_end
  recovered-IsSound retrying (err (Error.referral c) db) h = uncertain-IsSound _ db h.at_end
  recovered-IsSound retrying (err (Error.registrar e) db) h =
      go (e.uncertain || (retrying && not e.replayed))
    where
      given_up :
          Always {A = Unit {0}} IsSound ((release now oid row >> raise (Error.http 422 e.code)) db)
      given_up =
          let kept = release-IsSound now oid row db h.at_end in
          Always-bind _ _ kept
            (Ensures-map (λ u t k. record { at_end = k }) (Ensures-always IsSound _ kept.at_end))

      go :
          (keep : Bool)
          → Always {A = Unit {0}} IsSound (
              (if keep
                  then mark_uncertain oid >> raise (Error.http 503 Code.purchase_uncertain)
                  else release now oid row >> raise (Error.http 422 e.code))
                db)
      go true = uncertain-IsSound _ db h.at_end
      go false = given_up

  pub buy_reserved-IsSound :
      (retrying : Bool) (a : Answer) (db : Db)
      → IsHolding oid row.total_cents db
      → Always IsSound (buy_reserved under now oid row retrying a db)
  unfolding buy_reserved
  buy_reserved-IsSound retrying a db h =
      recovered-IsSound retrying _ (answered-IsHolding row.provider_result a db h)
