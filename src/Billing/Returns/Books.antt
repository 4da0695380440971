-- ===== src/Billing/Returns/Books.antt =====
-- Refunds and disputes keep the books, and what is held of a payment is what left the balance.
use boathouse_cloud.Prelude.{
  ℕ, refl, Bool, true, false, not, ◌&&◌, Option, none, some, inl, inr, Bool-cases, if◌then◌else◌,
}
use boathouse_cloud.Prelude.Int.{ℤ, pos, ◌-ℤ◌, ltb_ℤ, int_laws}
use boathouse_cloud.Prelude.Table.{find, first_row}
use boathouse_cloud.Prelude.Exec.{
  final, Always, Always-bind, Always-atomically, Always-raise_if, Always-or_raise, Always-fetch,
  Ensures, Ensures-ok, Ensures-map, Ensures-always, Ensures-bind, pure, after_gets, after_modify,
  after_fetch, after_raise_when,
}
use boathouse_cloud.Db.{Db, Workspace, PaymentOperation, PaymentReturn, PaymentIntent}
use boathouse_cloud.Db.Ledger.{IsBalanced, write_line-IsBalanced}
use boathouse_cloud.Referrals.Usage.{is_succeeded, held_of}
use boathouse_cloud.Referrals.Sync.{sync, is_zero}
use boathouse_cloud.Billing.Post.Books.{same_books, sync-IsBalanced}
use boathouse_cloud.Billing.Payments.{complete_payment}
use boathouse_cloud.Billing.Payments.Settle.{complete_payment-IsBalanced}
use boathouse_cloud.Billing.Execute.{Reply, intent, failure}
use boathouse_cloud.Billing.Refill.{pause_at, set_paused}
use boathouse_cloud.Billing.Refill.Books.{set_paused-IsBalanced}
use boathouse_cloud.Billing.Returns.{
  Processor, return_line, return_of, move_return, apply_body, apply_return, pause_returned, replied,
  is_paid_by, named_operation, reconcile_operation, reconcile_named, reconcile_by, reconcile,
}

module _ (ident now : ℕ) where
  move_return-IsBalanced :
      (w : ℕ) (delta : ℤ) (db : Db)
      → IsBalanced db
      → Ensures (λ _ t. IsBalanced t) (move_return ident now w delta db)
  move_return-IsBalanced w delta db h = elim (Bool-cases (is_zero delta)) [
    | inl e ↦ rw e (Ensures-ok _ _ _ h)
    | inr e ↦ rw e (
        after_fetch _ _ _ λ ws there. after_raise_when _ _ _ λ _.
          Ensures-ok _ _ _ (
            write_line-IsBalanced (return_line ident now w delta ws) ws db h there
              (omega int_laws)))
  ]

  apply_return-IsBalanced :
      (i : ℕ) (row : PaymentReturn) (db : Db)
      → IsBalanced db
      → Always IsBalanced (apply_return ident now i row db)
  unfolding apply_return apply_body
  apply_return-IsBalanced i row db h =
      let delta = pos row.held_cents -ℤ pos (held_of (find i db.returns)) in
      Always-atomically _ h (
        after_gets _ _ (
          after_modify _ _ (
            Ensures-bind _ (
              Ensures-map
                (λ _ t k. Ensures-bind _ (
                  Ensures-map (λ d u l. Ensures-ok _ _ _ l)
                    (Ensures-always IsBalanced (sync row.workspace_id t)
                      (sync-IsBalanced row.workspace_id t k))))
                (move_return-IsBalanced row.workspace_id delta _ (same_books refl refl h))))))

pause_returned-IsBalanced :
    (w : ℕ) (delta : ℤ) (ws : Workspace) (db : Db)
    → IsBalanced db
    → IsBalanced (final (pause_returned w delta ws db))
pause_returned-IsBalanced w delta ws db h =
    go (not (ltb_ℤ pause_at ws.balance_cents) && not ws.paused)
      (ltb_ℤ delta (pos 0) && (ltb_ℤ pause_at ws.balance_cents && ws.paused))
  where
    go :
        (down up : Bool)
        → IsBalanced
            (if down then set_paused true w db else if up then set_paused false w db else db)
    go true up = set_paused-IsBalanced true w db h
    go false true = set_paused-IsBalanced false w db h
    go false false = h

replied-IsBalanced : (r : Reply) (db : Db) → IsBalanced db → Always IsBalanced (replied r db)
replied-IsBalanced (intent pi) db h = record { at_end = h }
replied-IsBalanced (failure e) db h = record { at_end = h }

module _ (p : Processor) (ident now i : ℕ) where
  settled-IsBalanced :
      (opid : ℕ) (op : PaymentOperation) (pi : Option PaymentIntent) (b : Bool) (db : Db)
      → IsBalanced db
      → Always IsBalanced ((if b then pure (pos 0) else complete_payment now opid op pi) db)
  settled-IsBalanced opid op pi true db h = record { at_end = h }
  settled-IsBalanced opid op pi false db h = complete_payment-IsBalanced now opid op pi db h

  operation-IsBalanced :
      (opid : ℕ) (op : PaymentOperation) (db : Db)
      → IsBalanced db
      → Always IsBalanced (reconcile_operation p ident now i opid op db)
  unfolding reconcile_operation
  operation-IsBalanced opid op db h =
      let asked = replied-IsBalanced (p.payments.get_intent i) db h in
      Always-bind _ _ asked (
        Ensures-map
          (λ pi t k. Always-raise_if _ _ _ k λ _.
            let done = settled-IsBalanced opid op pi (is_succeeded op.status) t k in
            Always-bind _ _ done (
              Ensures-map
                (λ _ u l. Always-or_raise _ _ _ l λ rs _. Always-or_raise _ _ _ l λ ds _.
                  Always-raise_if _ _ _ l λ _.
                    let applied = apply_return-IsBalanced ident now i (return_of op rs ds) u l in
                    Always-bind _ _ applied (
                      Ensures-map
                        (λ delta v m. Always-fetch _ _ _ m λ ws _.
                          let paused = pause_returned-IsBalanced op.workspace_id delta ws v m in
                          Always-bind _ _ (record { at_end = paused })
                            (Ensures-ok _ _ _ (record { at_end = paused })))
                        (Ensures-always IsBalanced _ applied.at_end)))
                (Ensures-always IsBalanced _ done.at_end)))
          (Ensures-always IsBalanced _ asked.at_end))

  named-IsBalanced :
      (o : Option (ℕ × PaymentOperation)) (db : Db)
      → IsBalanced db
      → Always IsBalanced (reconcile_named p ident now i o db)
  named-IsBalanced none db h = record { at_end = h }
  named-IsBalanced (some (opid, op)) db h = operation-IsBalanced opid op db h

  by-IsBalanced :
      (o : Option (ℕ × PaymentOperation)) (db : Db)
      → IsBalanced db
      → Always IsBalanced (reconcile_by p ident now i o db)
  by-IsBalanced (some (opid, op)) db h = operation-IsBalanced opid op db h
  by-IsBalanced none db h =
      let asked = replied-IsBalanced (p.payments.get_intent i) db h in
      Always-bind _ _ asked (
        Ensures-map (λ pi t k. named-IsBalanced (named_operation pi t) t k)
          (Ensures-always IsBalanced _ asked.at_end))

  -- Reconciling a payment, whatever the processor reports and whether it returns or raises, keeps
  -- every balance equal to the sum of the workspace's ledger lines.
  pub reconcile-IsBalanced :
      (db : Db) → IsBalanced db → Always IsBalanced (reconcile p ident now i db)
  unfolding reconcile
  reconcile-IsBalanced db h = by-IsBalanced (first_row (is_paid_by i) db.payments) db h
