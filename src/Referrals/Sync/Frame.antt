-- ===== src/Referrals/Sync/Frame.antt =====
-- `sync` writes to the tables of the partner programme and to no other.
use boathouse_cloud.Prelude.{
  ℕ, ◌≡◌, refl, ap, ◌∙◌, Option, none, some, [], arith, inl, inr, ◌==◌, Bool-cases, Option-cases,
}
use boathouse_cloud.Prelude.Table.{find}
use boathouse_cloud.Prelude.Exec.{final}
use boathouse_cloud.Db.{Db, Revenue}
use boathouse_cloud.Referrals.Usage.{paid_usage}
use boathouse_cloud.Referrals.Sync.{with_revenue, rebase, sync_row, sync_partner, referrer_of, sync}

-- Everything but the partners' revenue and earnings.
abbrev pub except_partners : Db → Db
except_partners db = record db { revenue = []; earnings = [] }

with_revenue_frame :
    (w email : ℕ) (db : Db) → except_partners (with_revenue w email db) ≡ except_partners db
with_revenue_frame w email db = elim (Option-cases (find w db.revenue)) [
  | inl e ↦ rw (e, with_revenue)
  | inr (r, e) ↦ rw (e, with_revenue)
]

rebase_frame :
    (w email : ℕ) (old : Revenue) (basis : ℕ) (db : Db)
    → except_partners (final (rebase w email old basis db)) ≡ except_partners db
unfolding rebase
rebase_frame w email old basis db = ground arith

sync_row_frame :
    (w email : ℕ) (row : Option Revenue) (db : Db)
    → except_partners (final (sync_row w email row db)) ≡ except_partners db
sync_row_frame w email none db = refl
sync_row_frame w email (some old) db = elim (Bool-cases (old.basis_cents == paid_usage db w)) [
  | inl e ↦ rw e
  | inr e ↦ rw e (rebase_frame w email old (paid_usage db w) db)
]

pub sync_frame : (w : ℕ) (db : Db) → except_partners (final (sync w db)) ≡ except_partners db
unfolding sync
sync_frame w db = go (referrer_of (find w db.workspaces))
  where
    go : (o : Option ℕ) → except_partners (final (sync_partner w o db)) ≡ except_partners db
    go none = refl
    go (some email) =
        let there = with_revenue w email db in
        sync_row_frame w email (find w there.revenue) there ∙ with_revenue_frame w email db

module _ (w : ℕ) (db : Db) where
  pub workspaces-sync : (final (sync w db)).workspaces ≡ db.workspaces
  workspaces-sync = ap (λ (d : Db). d.workspaces) (sync_frame w db)

  pub ledger-sync : (final (sync w db)).ledger ≡ db.ledger
  ledger-sync = ap (λ (d : Db). d.ledger) (sync_frame w db)

  pub payments-sync : (final (sync w db)).payments ≡ db.payments
  payments-sync = ap (λ (d : Db). d.payments) (sync_frame w db)

  pub returns-sync : (final (sync w db)).returns ≡ db.returns
  returns-sync = ap (λ (d : Db). d.returns) (sync_frame w db)
