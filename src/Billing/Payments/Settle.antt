-- ===== src/Billing/Payments/Settle.antt =====
-- A confirmed payment is credited once, and the books stay in order.
use boathouse_cloud.Prelude.{ℕ, ◌≡◌, refl, Option, none, some, arith}
use boathouse_cloud.Prelude.Table.{find, update}
use boathouse_cloud.Prelude.Exec.{
  Ensures, Ensures-ok, Ensures-bind, Ensures-always, Ensures-map, after_modify, after_gets,
  after_raise_if, after_raise_when, after_fetch, Always, Always-raise_if, Always-or_raise,
  Always-atomically,
}
use boathouse_cloud.Db.{Db, Workspace, Line, PaymentOperation, PaymentIntent}
use boathouse_cloud.Db.Ledger.{IsBalanced, write_line-IsBalanced, update-IsBalanced, find_ref}
use boathouse_cloud.Referrals.Sync.{sync}
use boathouse_cloud.Billing.Post.Books.{same_books, sync-IsBalanced}
use boathouse_cloud.Billing.Payments.{
  stripe_ref, credit_once, topup_line, mark_succeeded, save_card, record_payment, settle_payment,
  complete_payment, card_of, intent_id,
}

pub save_card-balance :
    (current op : PaymentOperation) (card : Option ℕ) (ws : Workspace)
    → (save_card current op card ws).balance_cents ≡ ws.balance_cents
save_card-balance current op card ws = ground arith

module _ (now opid : ℕ) (op : PaymentOperation) (i : ℕ) (card : Option ℕ) where
  credit_once-IsBalanced :
      (ws : Workspace) (existing : Option Line) (db : Db)
      → find op.workspace_id db.workspaces ≡ some ws
      → IsBalanced db
      → IsBalanced (credit_once now op i ws existing db)
  credit_once-IsBalanced ws none db e h =
      write_line-IsBalanced (topup_line now op i ws) ws db h e refl
  credit_once-IsBalanced ws (some l) db e h = h

  record_payment-IsBalanced :
      (current : PaymentOperation) (ws : Workspace) (existing : Option Line) (db : Db)
      → find op.workspace_id db.workspaces ≡ some ws
      → IsBalanced db
      → Ensures (λ _ t. IsBalanced t) (record_payment now opid op i card current ws existing db)
  unfolding record_payment
  record_payment-IsBalanced current ws existing db e h =
      let credited = credit_once now op i ws existing db in
      let marked = record credited {
        payments = update opid (mark_succeeded i) credited.payments;
      } in
      after_modify _ _ (
        after_raise_when _ _ _ λ _. after_modify _ _ (
          Ensures-bind _ (
            Ensures-map
              (λ d t b. after_modify _ _ (
                Ensures-ok _ _ _ (
                  update-IsBalanced op.workspace_id (save_card current op card) t
                    (save_card-balance current op card) b)))
              (Ensures-always IsBalanced (sync op.workspace_id marked) (
                sync-IsBalanced op.workspace_id marked
                  (same_books refl refl (credit_once-IsBalanced ws existing db e h)))))))

  settle_payment-IsBalanced :
      (db : Db)
      → IsBalanced db
      → Ensures (λ _ t. IsBalanced t) (settle_payment now opid op i card db)
  unfolding settle_payment
  settle_payment-IsBalanced db h = after_fetch _ _ _ λ current there. after_raise_if _ _ _ λ _.
      after_fetch _ _ _ λ ws row. after_gets _ _ (
        after_raise_if _ _ _
          λ _. record_payment-IsBalanced current ws (find_ref (stripe_ref i) db.ledger) db row h)

module _ (now opid : ℕ) (op : PaymentOperation) (pi : Option PaymentIntent) where
  -- Settling a payment keeps every balance equal to the sum of its ledger lines, also when the
  -- provider's result is refused or the transaction fails.
  pub complete_payment-IsBalanced :
      (db : Db) → IsBalanced db → Always IsBalanced (complete_payment now opid op pi db)
  unfolding complete_payment
  complete_payment-IsBalanced db h = Always-raise_if _ _ _ h λ _. Always-raise_if _ _ _ h λ _.
      Always-or_raise (intent_id pi) _ _ h
        λ i _. Always-atomically _ h (settle_payment-IsBalanced now opid op i (card_of pi) db h)
