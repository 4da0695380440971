-- ===== src/Renewals/Replan.antt =====
-- `_plan` is idempotent: a plan stands while its price does.
use boathouse_cloud.Prelude.{
  ℕ, ◌≡◌, refl, subst, Bool, true, false, Option, none, some, is_some, [], ◌∷◌, ◌++◌, arith, inl,
  inr, Bool-cases,
}
use boathouse_cloud.Prelude.Table.{Table, find, any_row, first_row, find-append}
use boathouse_cloud.Prelude.Exec.{
  ok, Ensures, Ensures-ok, Ensures-map, Ensures-atomically, after_modify, after_gets,
  after_raise_when, after_fetch, atomically, ◌>>=◌,
}
use boathouse_cloud.Db.{Db, Renewal, RenewalSetting}
use boathouse_cloud.Renewals.Policy.{RenewalQuote}
use boathouse_cloud.Renewals.Plan.{
  in_cycle, planned, keeps_plan, insert_renewal, plan_over, plan_body, plan,
}

first_row-append {ℓ} :
    {V : Type ℓ} (p : ℕ → V → Bool) (k : ℕ) (v : V) (t : Table V)
    → any_row p t ≡ false
    → p k v ≡ true
    → first_row p (t ++ (k, v) ∷ []) ≡ some (k, v)
first_row-append p k v [] e h = ground arith
first_row-append p k v ((j, w) ∷ t) e h = ground (arith, first_row-append p k v t)

module _ (oid domain : ℕ) (p : RenewalSetting) (q : RenewalQuote) where
  -- The row that was returned is the one that the next call finds, and keeps.
  abbrev Stands : ℕ × Renewal → Db → Type 0
  Stands row t =
      (first_row (in_cycle domain p.expires_at) t.renewals ≡ some row) × (keeps_plan q row.1 ≡ true)

  new_row :
      (db : Db) (row : Renewal)
      → is_some (find oid db.renewals) ≡ false
      → find oid (db.renewals ++ (oid, planned domain p q) ∷ []) ≡ some row
      → planned domain p q ≡ row
  new_row db row new found = ground (arith, find-append oid oid (planned domain p q) db.renewals)

  planned-in_cycle : in_cycle domain p.expires_at oid (planned domain p q) ≡ true
  planned-in_cycle = ground arith

  planned-keeps_plan : keeps_plan q (planned domain p q) ≡ true
  planned-keeps_plan = ground arith

  inserted-Stands : (db : Db) → Ensures Stands (insert_renewal oid (planned domain p q) db)
  unfolding insert_renewal
  inserted-Stands db = after_raise_when _ _ _ λ new. after_raise_when _ _ _ λ alone.
      after_modify _ _ (
        after_fetch _ _ _ λ row found.
          Ensures-ok Stands (oid, row) _
            (subst
              (λ r.
                (first_row (in_cycle domain p.expires_at)
                    (db.renewals ++ (oid, planned domain p q) ∷ [])
                  ≡ some (oid, r))
                × (keeps_plan q r ≡ true))
              (new_row db row new found)
              (
                first_row-append _ oid (planned domain p q) db.renewals alone planned-in_cycle,
                planned-keeps_plan,
              )))

  over-Stands :
      (o : Option (ℕ × Renewal)) (db : Db)
      → first_row (in_cycle domain p.expires_at) db.renewals ≡ o
      → Ensures Stands (plan_over oid domain p q o db)
  over-Stands none db e = inserted-Stands db
  over-Stands (some (i, r)) db e = elim (Bool-cases (keeps_plan q r)) [
    | inl same ↦ rw same (Ensures-ok Stands (i, r) db (e, same))
    | inr moved ↦ rw moved (after_modify _ _ (inserted-Stands _))
  ]

  plan-Stands : (db : Db) → Ensures Stands (plan oid domain p q db)
  unfolding plan plan_body
  plan-Stands db = Ensures-atomically _ (
      after_gets (λ t. first_row (in_cycle domain p.expires_at) t.renewals) _
        (over-Stands _ db refl))

-- When a plan has been made, planning again at the same price and expiry returns the same renewal
-- and changes nothing, whatever identifier the second call draws.
pub plan_twice :
    (oid domain : ℕ) (p : RenewalSetting) (q : RenewalQuote) (oid' : ℕ) (db : Db)
    → Ensures (λ row t. plan oid' domain p q t ≡ ok row t) (plan oid domain p q db)
unfolding plan plan_body atomically ◌>>=◌
plan_twice oid domain p q oid' db =
    Ensures-map (λ row t h. rw (h.0, h.1)) (plan-Stands oid domain p q db)
