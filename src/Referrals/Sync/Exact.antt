-- ===== src/Referrals/Sync/Exact.antt =====
-- Commissions are exact: no cent is lost or paid twice by rounding.
use boathouse_cloud.Prelude.{
  ℕ, ◌+◌, ◌/◌, ◌≡◌, refl, true, false, Option, none, some, List, [], ◌∷◌, ◌++◌, inl, inr, arith,
  ◌==◌, if◌then◌else◌, Option-cases, Bool-cases,
}
use boathouse_cloud.Prelude.Int.{ℤ, pos, ◌+ℤ◌, ◌-ℤ◌, int_laws}
use boathouse_cloud.Prelude.Table.{
  find, update, find-update, find-append, sum_rows-update, sum_rows-update_other, sum_rows-append,
}
use boathouse_cloud.Prelude.Exec.{Ensures, Ensures-ok, Ensures-err, Ensures-both}
use boathouse_cloud.Db.{Db, Earning, Revenue}
use boathouse_cloud.Referrals.Usage.{paid_usage}
use boathouse_cloud.Referrals.Sync.Based.{IsBased, sync-IsBased}
use boathouse_cloud.Referrals.Sync.{
  earned_sum, tenth, refers, basis_sum, with_revenue, is_zero, has_earning, rebase, sync_row,
  sync_partner, referrer_of, sync,
}

pub earned_sum-append :
    (email : ℕ) (es : List Earning) (e : Earning)
    → earned_sum email (es ++ e ∷ [])
      ≡ earned_sum email es +ℤ (if email == e.referrer_email then e.cents else pos 0)
earned_sum-append email [] e = omega int_laws
earned_sum-append email (k ∷ es) e = grind (int_laws, earned_sum-append email es e)

-- Every partner has earned a tenth of the sum of the rows of the workspaces that he referred, rounded
-- down once over the whole sum, on top of what the old programme left; and each referred workspace's
-- row names its partner.
pub record IsExact (legacy : ℕ → ℤ) (db : Db) : Type 0 where
  pub exact :
      (email : ℕ)
      → earned_sum email db.earnings ≡ legacy email +ℤ pos (basis_sum email db.revenue / 10)
  pub attributed :
      (w email : ℕ) (r : Revenue)
      → referrer_of (find w db.workspaces) ≡ some email
      → find w db.revenue ≡ some r
      → r.referrer_email ≡ email

with_revenue-IsExact :
    (legacy : ℕ → ℤ) (w email : ℕ) (db : Db)
    → referrer_of (find w db.workspaces) ≡ some email
    → IsExact legacy db
    → IsExact legacy (with_revenue w email db)
with_revenue-IsExact legacy w email db named h = elim (Option-cases (find w db.revenue)) [
  | inr (r, e) ↦ rw (e, with_revenue) h
  | inl e ↦
      rw (e, with_revenue)
        (record {
          exact = λ m. ground (
            arith,
            sum_rows-append (refers m) (λ r. r.basis_cents) w fresh db.revenue,
            h.exact m,
          );
          attributed = λ v m r nv fv.
              ground (arith, find-append v w fresh db.revenue, h.attributed v m r nv);
        })
]
  where
    fresh : Revenue
    fresh = record { referrer_email = email; basis_cents = 0; revision = 0 }

tenth_total :
    (total old basis total' : ℕ)
    → total' + old ≡ total + basis
    → tenth (pos total -ℤ pos old +ℤ pos basis) ≡ pos (total' / 10)
tenth_total total old basis total' h =
    let e : pos total -ℤ pos old +ℤ pos basis ≡ pos total' = omega int_laws in rw e

is_zero-eq : (a : ℤ) → is_zero a ≡ true → a ≡ pos 0
is_zero-eq a h = ground arith

module _ (legacy : ℕ → ℤ) (w email : ℕ) (old : Revenue) (basis : ℕ) (db : Db)
    (h : IsExact legacy db) (row : find w db.revenue ≡ some old)
    (owner : old.referrer_email ≡ email) where
  change : Revenue → Revenue
  change r = record r { basis_cents = basis; revision = old.revision + 1 }

  -- The sum of the partner moves by the change of the row, and no other partner's does.
  basis_sum-change :
      basis_sum email (update w change db.revenue) + old.basis_cents
      ≡ basis_sum email db.revenue + basis
  unfolding change
  basis_sum-change =
      sum_rows-update (refers email) (λ r. r.basis_cents) w change old db.revenue row (ground arith)
        (ground arith)

  basis_sum-other :
      (m : ℕ)
      → (m == email) ≡ false
      → basis_sum m (update w change db.revenue) ≡ basis_sum m db.revenue
  unfolding change
  basis_sum-other m ne =
      sum_rows-update_other (refers m) (λ r. r.basis_cents) w change old db.revenue row
        (ground arith) (ground arith)

  after : ℕ → ℕ
  after m = basis_sum m (update w change db.revenue) / 10

  delta : ℤ
  delta =
      tenth (pos (basis_sum email db.revenue) -ℤ pos old.basis_cents +ℤ pos basis)
      -ℤ pos (basis_sum email db.revenue / 10)

  earning : Earning
  earning = record {
    referrer_email = email;
    workspace_id = w;
    cents = delta;
    revision = old.revision + 1;
    legacy_paid = false;
  }

  delta_lem : pos (basis_sum email db.revenue / 10) +ℤ delta ≡ pos (after email)
  unfolding delta after
  delta_lem =
      rw (tenth_total _ _ _ (basis_sum email (update w change db.revenue)) basis_sum-change)
        (omega int_laws)

  exact_moved : (m : ℕ) → earned_sum m (db.earnings ++ earning ∷ []) ≡ legacy m +ℤ pos (after m)
  unfolding after earning
  exact_moved m = elim (Bool-cases (m == email)) [
    | inl e ↦ rw earned_sum-append (grind (int_laws, delta_lem, h.exact email))
    | inr ne ↦ rw (earned_sum-append, basis_sum-other m ne) (grind (int_laws, h.exact m))
  ]

  exact_still :
      is_zero delta ≡ true → (m : ℕ) → earned_sum m db.earnings ≡ legacy m +ℤ pos (after m)
  unfolding after
  exact_still z m = elim (Bool-cases (m == email)) [
    | inl e ↦ grind (int_laws, delta_lem, h.exact email, is_zero-eq delta z)
    | inr ne ↦ rw (basis_sum-other m ne) (h.exact m)
  ]

  still_attributed :
      (v m : ℕ) (r : Revenue)
      → referrer_of (find v db.workspaces) ≡ some m
      → find v (update w change db.revenue) ≡ some r
      → r.referrer_email ≡ m
  unfolding change
  still_attributed v m r nv fv =
      ground
        (arith, find-update v w change db.revenue, h.attributed v m r nv, h.attributed v m old nv)

  rebase-IsExact : Ensures (λ _ s. IsExact legacy s) (rebase w email old basis db)
  unfolding rebase delta earning change after
  rebase-IsExact = elim (Bool-cases (is_zero delta)) [
    | inl z ↦
        rw z (Ensures-ok _ _ _ (record { exact = exact_still z; attributed = still_attributed }))
    | inr nz ↦ elim (Bool-cases (has_earning w (old.revision + 1) db.earnings)) [
      | inl double ↦ rw (nz, double) (Ensures-err _ _ _)
      | inr single ↦
          rw (nz, single)
            (Ensures-ok _ _ _ (record { exact = exact_moved; attributed = still_attributed }))
    ]
  ]

sync_row-IsExact :
    (legacy : ℕ → ℤ) (w email : ℕ) (row : Option Revenue) (db : Db)
    → referrer_of (find w db.workspaces) ≡ some email
    → find w db.revenue ≡ row
    → IsExact legacy db
    → Ensures (λ _ s. IsExact legacy s) (sync_row w email row db)
sync_row-IsExact legacy w email none db named e h = Ensures-err _ _ _
sync_row-IsExact legacy w email (some old) db named e h =
    elim (Bool-cases (old.basis_cents == paid_usage db w)) [
      | inl same_basis ↦ rw same_basis (Ensures-ok _ _ _ h)
      | inr moved ↦ rw moved (
          rebase-IsExact legacy w email old (paid_usage db w) db h e
            (h.attributed w email old named e))
    ]

workspaces-with_revenue :
    (w email : ℕ) (db : Db) → (with_revenue w email db).workspaces ≡ db.workspaces
workspaces-with_revenue w email db = ground arith

kept-IsExact :
    (legacy : ℕ → ℤ) (w : ℕ) (db : Db)
    → IsExact legacy db
    → Ensures (λ _ after. IsExact legacy after) (sync w db)
unfolding sync
kept-IsExact legacy w db h = go (referrer_of (find w db.workspaces)) refl
  where
    go :
        (o : Option ℕ)
        → referrer_of (find w db.workspaces) ≡ o
        → Ensures (λ _ after. IsExact legacy after) (sync_partner w o db)
    go none e = Ensures-ok _ _ _ h
    go (some email) e =
        let there = with_revenue w email db in
        sync_row-IsExact legacy w email (find w there.revenue) there
          (rw (workspaces-with_revenue w email db) e) refl
          (with_revenue-IsExact legacy w email db e h)

-- Where every partner has earned a tenth of the sum of his workspaces' rows, rounded down once over
-- the sum, on top of what an older programme left, and the row of a referred workspace names its
-- partner, both are so after a sync of any workspace that returns. The row of that workspace then has
-- its paid usage, if it is referred, and no other row has moved.
pub sync-IsExact :
    (legacy : ℕ → ℤ) (w : ℕ) (db : Db)
    → IsExact legacy db
    → Ensures (λ _ after. IsExact legacy after × IsBased w db after) (sync w db)
sync-IsExact legacy w db h = Ensures-both (kept-IsExact legacy w db h) (sync-IsBased w db)
