-- ===== src/Billing/Returns/Held.antt =====
-- What is held of a payment is what has left the balance.
use boathouse_cloud.Prelude.{
  ℕ, ◌≡◌, refl, true, false, some, arith, inl, inr, Bool-cases, Option-cases, ◌==◌,
}
use boathouse_cloud.Prelude.Int.{ℤ, pos, ◌+ℤ◌, ◌-ℤ◌, int_laws}
use boathouse_cloud.Prelude.Table.{Table, find, find-update, find-append}
use boathouse_cloud.Prelude.Exec.{
  final, Ensures, Ensures-ok, Ensures-map, Ensures-always, Ensures-bind, Ensures-atomically,
  after_gets, after_modify, after_fetch, after_raise_when,
}
use boathouse_cloud.Db.{Db, Workspace, PaymentReturn}
use boathouse_cloud.Db.Ledger.{write_line, set_balance}
use boathouse_cloud.Referrals.Usage.{held_of}
use boathouse_cloud.Referrals.Sync.{sync, is_zero}
use boathouse_cloud.Referrals.Sync.Frame.{workspaces-sync, returns-sync}
use boathouse_cloud.Billing.Post.{balance}
use boathouse_cloud.Billing.Returns.{put_return, return_line, move_return, apply_body, apply_return}

held-put_return :
    (i : ℕ) (row : PaymentReturn) (t : Table PaymentReturn)
    → held_of (find i (put_return i row t)) ≡ row.held_cents
held-put_return i row t = elim (Option-cases (find i t)) [
  | inl e ↦ ground (arith, find-append i i row t)
  | inr (old, e) ↦ ground (
    arith,
    find-update i i
        (λ o. record o {
          refunded_cents = row.refunded_cents;
          disputed_cents = row.disputed_cents;
          held_cents = row.held_cents;
        })
        t,
  )
]

-- What is held is `held_cents`, what the workspace's balance lost is what is held more, and every
-- other balance stays.
abbrev pub IsHeldBack : ℕ → PaymentReturn → Db → Db → Type 0
IsHeldBack i row db t =
    (held_of (find i t.returns) ≡ row.held_cents)
    × (balance row.workspace_id t +ℤ pos row.held_cents
        ≡ balance row.workspace_id db +ℤ pos (held_of (find i db.returns)))
    × ((v : ℕ) → (v == row.workspace_id) ≡ false → balance v t ≡ balance v db)

zero_delta : (a b : ℕ) → is_zero (pos a -ℤ pos b) ≡ true → a ≡ b
unfolding ◌-ℤ◌
zero_delta a b h = ground arith

module _ (ident now i : ℕ) (row : PaymentReturn) (db : Db) where
  abbrev put : Db
  put = record db { returns = put_return i row db.returns }

  abbrev delta : ℤ
  delta = pos row.held_cents -ℤ pos (held_of (find i db.returns))

  moved-IsHeldBack :
      (ws : Workspace)
      → find row.workspace_id db.workspaces ≡ some ws
      → IsHeldBack i row db (write_line (return_line ident now row.workspace_id delta ws) put)
  unfolding balance
  moved-IsHeldBack ws there =
      let w = row.workspace_id in
      let line = return_line ident now w delta ws in
      let after : balance w (write_line line put) ≡ ws.balance_cents -ℤ delta =
        ground (arith, find-update w w (set_balance line.balance_after) db.workspaces) in
      let before : balance w db ≡ ws.balance_cents = rw there in
      (
        held-put_return i row db.returns,
        rw (after, before) (omega int_laws),
        λ v other. ground (arith, find-update v w (set_balance line.balance_after) db.workspaces),
      )

  kept-IsHeldBack : is_zero delta ≡ true → IsHeldBack i row db put
  unfolding ◌+ℤ◌ balance
  kept-IsHeldBack zero =
      (held-put_return i row db.returns, rw (zero_delta _ _ zero), λ v other. refl)

  move-IsHeldBack :
      Ensures (λ _ t. IsHeldBack i row db t) (move_return ident now row.workspace_id delta put)
  move-IsHeldBack = elim (Bool-cases (is_zero delta)) [
    | inl e ↦ rw e (Ensures-ok _ _ _ (kept-IsHeldBack e))
    | inr e ↦ rw e (
        after_fetch _ _ _
          λ ws there. after_raise_when _ _ _ λ _. Ensures-ok _ _ _ (moved-IsHeldBack ws there))
  ]

  synced : (t : Db) → IsHeldBack i row db t → IsHeldBack i row db (final (sync row.workspace_id t))
  unfolding balance
  synced t h = rw (returns-sync row.workspace_id t, workspaces-sync row.workspace_id t) h

  -- Applying a refund or a dispute, if it returns, records what the processor holds of the payment, and
  -- moves the balance of its workspace, and of no other, by the difference to what was held before.
  pub apply_return-IsHeldBack :
      Ensures (λ _ t. IsHeldBack i row db t) (apply_return ident now i row db)
  unfolding apply_return apply_body
  apply_return-IsHeldBack = Ensures-atomically _ (
      after_gets _ _ (
        after_modify _ _ (
          Ensures-bind _ (
            Ensures-map
              (λ _ t h. Ensures-bind _ (
                Ensures-map (λ d u k. Ensures-ok _ _ _ k)
                  (Ensures-always (IsHeldBack i row db) (sync row.workspace_id t) (synced t h))))
              move-IsHeldBack))))
