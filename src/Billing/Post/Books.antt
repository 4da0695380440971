-- ===== src/Billing/Post/Books.antt =====
-- `post` keeps the books, posts once for a reference, and moves the balance by its amount.
use boathouse_cloud.Prelude.{
  ℕ, ◌≡◌, refl, true, false, Option, none, some, is_some, arith, inl, inr, Bool-cases, ◌==◌,
  if◌then◌else◌,
}
use boathouse_cloud.Prelude.Int.{ℤ, ◌+ℤ◌}
use boathouse_cloud.Prelude.Table.{find, find-update}
use boathouse_cloud.Prelude.Exec.{
  Run, ok, final, Ensures, Ensures-ok, Ensures-err, Ensures-bind, Ensures-always, Ensures-map,
  Ensures-atomically, atomically_keeps, atomically,
}
use boathouse_cloud.Db.{Db, Workspace, Kind, Memo, Ref, Error}
use boathouse_cloud.Db.Ledger.{
  IsBalanced, clashes-append, write_line, set_balance, write_line-IsBalanced, clashes,
}
use boathouse_cloud.Referrals.Sync.{sync}
use boathouse_cloud.Referrals.Sync.Frame.{workspaces-sync, ledger-sync}
use boathouse_cloud.Billing.Post.{balance, posting, append_posting, post_body, post}

-- The books read only two tables.
pub same_books :
    {db after : Db}
    → after.workspaces ≡ db.workspaces
    → after.ledger ≡ db.ledger
    → IsBalanced db
    → IsBalanced after
same_books ws ls h = record { at = λ w v e. rw ls (h.at w v (rw ws at e)) }

pub sync-IsBalanced : (w : ℕ) (db : Db) → IsBalanced db → IsBalanced (final (sync w db))
sync-IsBalanced w db h = same_books (workspaces-sync w db) (ledger-sync w db) h

module _ (now w : ℕ) (kind : Kind) (amount : ℤ) (memo : Memo) (ref : Option Ref) where
  append_posting-IsBalanced :
      (o : Option Workspace) (db : Db)
      → find w db.workspaces ≡ o
      → IsBalanced db
      → Ensures (λ _ after. IsBalanced after) (append_posting now w kind amount memo ref o db)
  append_posting-IsBalanced none db e h = Ensures-err _ _ _
  append_posting-IsBalanced (some ws) db e h =
      let written = write_line (posting now w kind amount memo ref ws) db in
      Ensures-bind _ (
        Ensures-ok _ _ _ (
          Ensures-bind _ (
            Ensures-map (λ a t b. Ensures-ok _ _ _ b)
              (Ensures-always IsBalanced (sync w written)
                (sync-IsBalanced w written (write_line-IsBalanced _ ws db h e refl))))))

  post_body-IsBalanced :
      (db : Db)
      → IsBalanced db
      → Ensures (λ _ after. IsBalanced after) (post_body now w kind amount memo ref db)
  unfolding post_body
  post_body-IsBalanced db h = elim (Bool-cases (clashes ref db.ledger)) [
    | inl e ↦ rw e (Ensures-ok _ _ _ h)
    | inr e ↦ rw e (append_posting-IsBalanced (find w db.workspaces) db refl h)
  ]

  -- `post` keeps every balance equal to the sum of the workspace's ledger lines, also when it raises.
  post-IsBalanced :
      (db : Db) → IsBalanced db → IsBalanced (final (post now w kind amount memo ref db))
  unfolding post
  post-IsBalanced db h =
      atomically_keeps IsBalanced (post_body now w kind amount memo ref) h
        (post_body-IsBalanced db h)

  -- What a posting that goes through leaves: the balance has moved by the amount, every other
  -- workspace's has not, and the reference is taken.
  abbrev Posted : Db → ℤ → Db → Type 0
  Posted db b after =
      (b ≡ balance w db +ℤ amount)
      × ((v : ℕ) → balance v after ≡ (if v == w then balance w db +ℤ amount else balance v db))
      × (clashes ref after.ledger ≡ is_some ref)

  append_posting-Posted :
      (o : Option Workspace) (db : Db)
      → find w db.workspaces ≡ o
      → Ensures (Posted db) (append_posting now w kind amount memo ref o db)
  unfolding balance
  append_posting-Posted none db e = Ensures-err _ _ _
  append_posting-Posted (some ws) db e =
      let line = posting now w kind amount memo ref ws in
      let written = write_line line db in
      let moved : balance w db ≡ ws.balance_cents = rw e in
      Ensures-bind _ (
        Ensures-ok _ _ _ (
          Ensures-bind _ (
            Ensures-map
              (λ d t st. Ensures-ok _ _ _ (
                rw moved,
                (λ v.
                    rw (st.0, moved)
                      (ground (
                        arith,
                        find-update v w (set_balance (ws.balance_cents +ℤ amount)) db.workspaces,
                      ))),
                rw st.1 (clashes-append ref line db.ledger refl),
              ))
              (Ensures-always
                (λ (t : Db). (t.workspaces ≡ written.workspaces) × (t.ledger ≡ written.ledger))
                (sync w written) (workspaces-sync w written, ledger-sync w written)))))

  post-Posted :
      (db : Db)
      → clashes ref db.ledger ≡ false
      → Ensures (Posted db) (post now w kind amount memo ref db)
  unfolding post post_body
  post-Posted db fresh =
      Ensures-atomically _ (rw fresh (append_posting-Posted (find w db.workspaces) db refl))

  -- A posting that returns, with a reference not used before or with none, returns the balance
  -- that it leaves: the old one plus the amount. Every other workspace's balance stays.
  pub post_moves :
      (db : Db)
      → clashes ref db.ledger ≡ false
      → Ensures
          (λ b after.
            (b ≡ balance w db +ℤ amount)
            × ((v : ℕ)
                → balance v after ≡ (if v == w then balance w db +ℤ amount else balance v db)))
          (post now w kind amount memo ref db)
  post_moves db fresh = Ensures-map (λ b t h. (h.0, h.1)) (post-Posted db fresh)

  post_again :
      (db : Db)
      → clashes ref db.ledger ≡ true
      → post now w kind amount memo ref db ≡ ok (balance w db) db
  unfolding post post_body atomically
  post_again db taken = rw taken

-- Once a posting with a reference has returned, any posting with that reference to that workspace,
-- whatever its amount, returns the same balance and changes nothing.
pub post_once :
    (now w : ℕ) (kind : Kind) (amount : ℤ) (memo : Memo) (r : Ref) (db : Db) (now' : ℕ)
    (kind' : Kind) (amount' : ℤ) (memo' : Memo)
    → Ensures
        (λ b after. post now' w kind' amount' memo' (some r) after ≡ ok b after)
        (post now w kind amount memo (some r) db)
post_once now w kind amount memo r db now' kind' amount' memo' =
    elim (Bool-cases (clashes (some r) db.ledger)) [
      | inl taken ↦
          rw (post_again now w kind amount memo (some r) db taken)
            (Ensures-ok _ _ _ (post_again now' w kind' amount' memo' (some r) db taken))
      | inr fresh ↦
          Ensures-map
            (λ b t h.
              rw (post_again now' w kind' amount' memo' (some r) t h.2)
                (balance_kept b t h.0 (h.1 w)))
            (post-Posted now w kind amount memo (some r) db fresh)
    ]
  where
    balance_kept :
        (b : ℤ) (t : Db)
        → b ≡ balance w db +ℤ amount
        → balance w t ≡ (if w == w then balance w db +ℤ amount else balance w db)
        → ◌≡◌ {A = Run Db Error ℤ} (ok (balance w t) t) (ok b t)
    balance_kept b t e k = ground arith
