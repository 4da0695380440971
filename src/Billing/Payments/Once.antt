-- ===== src/Billing/Payments/Once.antt =====
-- However often a payment's success is delivered, its workspace is credited once.
use boathouse_cloud.Prelude.{
  ℕ, ◌≡◌, refl, sym, ap, ◌∙◌, true, Option, none, some, arith, if◌then◌else◌,
}
use boathouse_cloud.Prelude.Int.{ℤ, pos, ◌+ℤ◌, +ℤ_zero}
use boathouse_cloud.Prelude.Table.{find, update, find-update}
use boathouse_cloud.Prelude.Exec.{
  Ensures, Ensures-ok, Ensures-bind, Ensures-always, Ensures-map, Ensures-atomically, after_modify,
  after_gets, after_raise_if, after_raise_when, after_fetch, after_or_raise,
}
use boathouse_cloud.Db.{Db, Workspace, Line, PaymentOperation, PaymentIntent}
use boathouse_cloud.Db.Ledger.{set_balance, find_ref, has_ref, is_some-find_ref, has_ref-append}
use boathouse_cloud.Referrals.Sync.{sync}
use boathouse_cloud.Referrals.Sync.Frame.{workspaces-sync, ledger-sync}
use boathouse_cloud.Billing.Post.{balance, balance_of}
use boathouse_cloud.Billing.Payments.{
  stripe_ref, credit_once, credited_balance, topup_line, mark_succeeded, save_card, record_payment,
  settle_payment, complete_payment, intent_id, card_of,
}
use boathouse_cloud.Billing.Payments.Settle.{save_card-balance}

-- What completing a payment is to add: its amount, or nothing if the ledger has its reference.
abbrev pub owed : PaymentOperation → ℕ → Db → ℤ
owed op i db = if has_ref (stripe_ref i) db.ledger then pos 0 else pos op.cents

-- `b` is returned and is the workspace's balance, the amount owed has been added to what it was,
-- and the reference is in the ledger.
pub record Credited (op : PaymentOperation) (i : ℕ) (db : Db) (b : ℤ) (after : Db) : Type 0 where
  pub returned : b ≡ balance op.workspace_id after
  pub moved : balance op.workspace_id after ≡ balance op.workspace_id db +ℤ owed op i db
  pub recorded : has_ref (stripe_ref i) after.ledger ≡ true

pub balance-update_same :
    (w k : ℕ) (f : Workspace → Workspace) (db : Db)
    → ((ws : Workspace) → (f ws).balance_cents ≡ ws.balance_cents)
    → balance w (record db { workspaces = update k f db.workspaces }) ≡ balance w db
unfolding balance
balance-update_same w k f db h = go (find w db.workspaces) refl
  where
    go :
        (o : Option Workspace)
        → find w db.workspaces ≡ o
        → balance_of (find w (update k f db.workspaces)) ≡ balance_of (find w db.workspaces)
    go none e = ground (arith, find-update w k f db.workspaces)
    go (some ws) e = ground (arith, find-update w k f db.workspaces, h ws)

module _ (now opid : ℕ) (op : PaymentOperation) (i : ℕ) where
  credit_once-Credited :
      (ws : Workspace) (existing : Option Line) (db : Db)
      → find op.workspace_id db.workspaces ≡ some ws
      → find_ref (stripe_ref i) db.ledger ≡ existing
      → Credited op i db (credited_balance op ws existing) (credit_once now op i ws existing db)
  unfolding balance
  credit_once-Credited ws (some l) db row e = record {
    returned = rw row;
    moved = ground (arith, is_some-find_ref (stripe_ref i) db.ledger, +ℤ_zero ws.balance_cents);
    recorded = ground (arith, is_some-find_ref (stripe_ref i) db.ledger);
  }
  credit_once-Credited ws none db row e =
      let w = op.workspace_id in
      let b = ws.balance_cents +ℤ pos op.cents in
      record {
        returned = ground (arith, find-update w w (set_balance b) db.workspaces);
        moved = ground (
          arith,
          find-update w w (set_balance b) db.workspaces,
          is_some-find_ref (stripe_ref i) db.ledger,
        );
        recorded = has_ref-append (stripe_ref i) (topup_line now op i ws) db.ledger refl;
      }

  -- `Credited` reads the balance and the ledger alone.
  same_credit :
      {db t after : Db} {b : ℤ}
      → balance op.workspace_id after ≡ balance op.workspace_id t
      → after.ledger ≡ t.ledger
      → Credited op i db b t
      → Credited op i db b after
  same_credit eb el h = record {
    returned = rw eb h.returned;
    moved = rw eb h.moved;
    recorded = rw el h.recorded;
  }

  module _ (card : Option ℕ) where
    record_payment-Credited :
        (current : PaymentOperation) (ws : Workspace) (existing : Option Line) (db : Db)
        → find op.workspace_id db.workspaces ≡ some ws
        → find_ref (stripe_ref i) db.ledger ≡ existing
        → Ensures (Credited op i db) (record_payment now opid op i card current ws existing db)
    unfolding record_payment balance
    record_payment-Credited current ws existing db row e =
        let credited = credit_once now op i ws existing db in
        let marked = record credited {
          payments = update opid (mark_succeeded i) credited.payments;
        } in
        let w = op.workspace_id in
        after_modify _ _ (
          after_raise_when _ _ _ λ _. after_modify _ _ (
            Ensures-bind _ (
              Ensures-map
                (λ d t same. after_modify _ _ (
                  Ensures-ok _ _ _ (
                    same_credit
                      (balance-update_same w w (save_card current op card) t
                          (save_card-balance current op card)
                        ∙ ap (λ ws. balance_of (find w ws)) same.0)
                      same.1 (credit_once-Credited ws existing db row e))))
                (Ensures-always
                  (λ (t : Db). (t.workspaces ≡ credited.workspaces) × (t.ledger ≡ credited.ledger))
                  (sync w marked) (workspaces-sync w marked, ledger-sync w marked)))))

    settle_payment-Credited :
        (db : Db) → Ensures (Credited op i db) (settle_payment now opid op i card db)
    unfolding settle_payment
    settle_payment-Credited db = after_fetch _ _ _ λ current there. after_raise_if _ _ _ λ _.
        after_fetch _ _ _ λ ws row. after_gets _ _ (
          after_raise_if _ _ _
            λ _. record_payment-Credited current ws (find_ref (stripe_ref i) db.ledger) db row refl)

-- Completing a payment with a provider's result that names the intent `i`, if it returns, returns the
-- workspace's new balance. That is the old one plus the payment's amount, or the old one if the
-- ledger had a line for `i` before; and the ledger has one now.
pub complete_payment-Credited :
    (now opid : ℕ) (op : PaymentOperation) (pi : Option PaymentIntent) (i : ℕ) (db : Db)
    → intent_id pi ≡ some i
    → Ensures (Credited op i db) (complete_payment now opid op pi db)
unfolding complete_payment
complete_payment-Credited now opid op pi i db named = after_raise_if _ _ _ λ _.
    after_raise_if _ _ _ λ _. after_or_raise (intent_id pi) _ _ λ j e. Ensures-atomically _ (
      let same_intent : j ≡ i = cc in
      rw same_intent (settle_payment-Credited now opid op i (card_of pi) db))

-- Two deliveries of the same intent for operations with the same workspace and amount, the second
-- from any reading of the rows: once both have returned, the balance is what the first one left.
complete_payment_twice :
    (now opid now' opid' : ℕ) (op op' : PaymentOperation) (pi pi' : Option PaymentIntent) (i : ℕ)
    (db : Db)
    → intent_id pi ≡ some i
    → intent_id pi' ≡ some i
    → op'.workspace_id ≡ op.workspace_id
    → Ensures
        (λ b t.
          Ensures
            (λ b' t'. (b' ≡ b) × (balance op.workspace_id t' ≡ b))
            (complete_payment now' opid' op' pi' t))
        (complete_payment now opid op pi db)
complete_payment_twice now opid now' opid' op op' pi pi' i db e e' same_workspace =
    Ensures-map
      (λ b t first.
        Ensures-map (λ b' t' second. unmoved b t b' t' first second)
          (complete_payment-Credited now' opid' op' pi' i t e'))
      (complete_payment-Credited now opid op pi i db e)
  where
    unmoved :
        (b : ℤ) (t : Db) (b' : ℤ) (t' : Db)
        → Credited op i db b t
        → Credited op' i t b' t'
        → (b' ≡ b) × (balance op.workspace_id t' ≡ b)
    unmoved b t b' t' first second =
        let kept : balance op.workspace_id t' ≡ balance op.workspace_id t =
          rw first.recorded at (rw same_workspace at second.moved)
          ∙ +ℤ_zero (balance op.workspace_id t) in
        (
          rw same_workspace at second.returned ∙ kept ∙ sym first.returned,
          kept ∙ sym first.returned,
        )
