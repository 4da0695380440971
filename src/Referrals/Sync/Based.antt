-- ===== src/Referrals/Sync/Based.antt =====
-- After a sync the workspace's row of paid usage is what the ledger shows, and no other row moves.
use boathouse_cloud.Prelude.{
  ℕ, ◌/◌, Bool, ◌≡◌, refl, ◌∙◌, true, false, Option, none, some, List, [], ◌∷◌, ◌++◌, inl, inr,
  arith, ◌==◌, is_some, if◌then◌else◌, Option-cases, Bool-cases, ◌+◌, ap,
}
use boathouse_cloud.Prelude.Int.{ℤ, pos, ◌+ℤ◌, ◌-ℤ◌}
use boathouse_cloud.Prelude.Table.{Table, find, update, find-update, find-append}
use boathouse_cloud.Prelude.Exec.{Ensures, Ensures-ok, Ensures-err, Ensures-map, ok, err}
use boathouse_cloud.Db.{Db, Revenue, Earning, Line, Error}
use boathouse_cloud.Referrals.Usage.{Replay, paid, replay_line, replay, paid_usage}
use boathouse_cloud.Referrals.Sync.{
  tenth, basis_sum, with_revenue, is_zero, has_earning, rebase, sync_row, sync_partner, referrer_of,
  sync,
}

abbrev pub basis_of : Option Revenue → Option ℕ
basis_of none = none
basis_of (some r) = some r.basis_cents

-- The row of a referred workspace has its paid usage, and the other rows are as they were.
pub record IsBased (w : ℕ) (before after : Db) : Type 0 where
  pub basis :
      is_some (referrer_of (find w before.workspaces)) ≡ true
      → basis_of (find w after.revenue) ≡ some (paid_usage before w)
  pub others : (v : ℕ) → (v == w) ≡ false → find v after.revenue ≡ find v before.revenue

module _ (w : ℕ) (db : Db) (rows : Table Revenue) where
  other_rows : Db
  other_rows = record db { revenue = rows }

  line_frame :
      (rowid : ℕ) (l : Line) (r : Replay)
      → replay_line other_rows w rowid l r ≡ replay_line db w rowid l r
  unfolding replay_line paid other_rows
  line_frame rowid l r = refl

  replay_frame :
      (ls : List Line) (rowid : ℕ) (r : Replay)
      → replay other_rows w rowid ls r ≡ replay db w rowid ls r
  unfolding replay
  replay_frame [] rowid r = refl
  replay_frame (l ∷ ls) rowid r = rw (line_frame rowid l r) (replay_frame ls (rowid + 1) _)

  paid_usage_frame : paid_usage other_rows w ≡ paid_usage db w
  unfolding paid_usage other_rows
  paid_usage_frame = ap (λ (r : Replay). r.earned) (replay_frame db.ledger 1 _)

with_revenue-paid_usage :
    (w email : ℕ) (db : Db) → paid_usage (with_revenue w email db) w ≡ paid_usage db w
unfolding other_rows
with_revenue-paid_usage w email db = elim (Option-cases (find w db.revenue)) [
  | inr (r, e) ↦ rw (e, with_revenue) refl
  | inl e ↦
      rw (e, with_revenue)
        (paid_usage_frame w db (
          db.revenue ++ (w, record { referrer_email = email; basis_cents = 0; revision = 0 }) ∷ []))
]

with_revenue-others :
    (w email v : ℕ) (db : Db)
    → (v == w) ≡ false
    → find v (with_revenue w email db).revenue ≡ find v db.revenue
with_revenue-others w email v db other = elim (Option-cases (find w db.revenue)) [
  | inr (r, e) ↦ rw (e, with_revenue) refl
  | inl e ↦
      rw (e, with_revenue)
        (ground (
          arith,
          find-append v w (record { referrer_email = email; basis_cents = 0; revision = 0 })
              db.revenue,
        ))
]

-- The row has this basis, and the other rows are as they were.
record HasBasis (w basis : ℕ) (before after : Db) : Type 0 where
  row : basis_of (find w after.revenue) ≡ some basis
  rest : (v : ℕ) → (v == w) ≡ false → find v after.revenue ≡ find v before.revenue

rebased : ℕ → Revenue → Revenue → Revenue
rebased basis old r = record r { basis_cents = basis; revision = old.revision + 1 }

update-HasBasis :
    (w : ℕ) (old : Revenue) (basis : ℕ) (db s : Db)
    → find w db.revenue ≡ some old
    → s.revenue ≡ update w (rebased basis old) db.revenue
    → HasBasis w basis db s
unfolding rebased
update-HasBasis w old basis db s there e = record {
  row = ground (arith, e, find-update w w (rebased basis old) db.revenue, there);
  rest = λ v other. ground (arith, e, find-update v w (rebased basis old) db.revenue);
}

rebase-HasBasis :
    (w email : ℕ) (old : Revenue) (basis : ℕ) (db : Db)
    → find w db.revenue ≡ some old
    → Ensures (λ _ s. HasBasis w basis db s) (rebase w email old basis db)
unfolding rebase rebased
rebase-HasBasis w email old basis db there =
    let total = basis_sum email db.revenue in
    let delta = tenth (pos total -ℤ pos old.basis_cents +ℤ pos basis) -ℤ pos (total / 10) in
    let still = record db { revenue = update w (rebased basis old) db.revenue } in
    let earning : Earning = record {
      referrer_email = email;
      workspace_id = w;
      cents = delta;
      revision = old.revision + 1;
      legacy_paid = false;
    } in
    go (is_zero delta) (has_earning w (old.revision + 1) db.earnings) delta still
      (record still { earnings = db.earnings ++ earning ∷ [] }) refl refl
  where
    go :
        (z h : Bool) (delta : ℤ) (still moved : Db)
        → still.revenue ≡ update w (rebased basis old) db.revenue
        → moved.revenue ≡ update w (rebased basis old) db.revenue
        → Ensures
            (λ _ s. HasBasis w basis db s)
            (if z then ok delta still else if h then err Error.crash still else ok delta moved)
    go true h delta still moved e f =
        Ensures-ok _ _ _ (update-HasBasis w old basis db still there e)
    go false true delta still moved e f = Ensures-err _ _ _
    go false false delta still moved e f =
        Ensures-ok _ _ _ (update-HasBasis w old basis db moved there f)

sync_row-HasBasis :
    (w email : ℕ) (row : Option Revenue) (db : Db)
    → find w db.revenue ≡ row
    → Ensures (λ _ s. HasBasis w (paid_usage db w) db s) (sync_row w email row db)
sync_row-HasBasis w email none db e = Ensures-err _ _ _
sync_row-HasBasis w email (some old) db e = elim (Bool-cases (old.basis_cents == paid_usage db w)) [
  | inl same_basis ↦
      rw same_basis
        (Ensures-ok _ _ _ (record { row = rw e (ground arith); rest = λ v other. refl }))
  | inr moved ↦ rw moved (rebase-HasBasis w email old (paid_usage db w) db e)
]

pub sync-IsBased : (w : ℕ) (db : Db) → Ensures (λ _ after. IsBased w db after) (sync w db)
unfolding sync
sync-IsBased w db = go (referrer_of (find w db.workspaces)) refl
  where
    go :
        (o : Option ℕ)
        → referrer_of (find w db.workspaces) ≡ o
        → Ensures (λ _ after. IsBased w db after) (sync_partner w o db)
    go none e = Ensures-ok _ _ _ (record { basis = λ h. ground arith; others = λ v other. refl })
    go (some email) e =
        let there = with_revenue w email db in
        Ensures-map
          (λ _ s h. record {
            basis = λ _. h.row ∙ ap some (with_revenue-paid_usage w email db);
            others = λ v other. h.rest v other ∙ with_revenue-others w email v db other;
          })
          (sync_row-HasBasis w email (find w there.revenue) there refl)
