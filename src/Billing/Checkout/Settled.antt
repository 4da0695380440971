-- ===== src/Billing/Checkout/Settled.antt =====
-- What the result of a checkout session says.
use boathouse_cloud.Prelude.{
  ℕ, ◌≡◌, ◌⊎◌, inl, inr, refl, sym, subst, ap, ◌∙◌, true, false, not, ◌&&◌, ◌||◌, Option, none,
  some, arith, Bool-cases, is_some, same-eq, if◌then◌else◌,
}
use boathouse_cloud.Prelude.Int.{ℤ, ◌+ℤ◌}
use boathouse_cloud.Prelude.Table.{update}
use boathouse_cloud.Prelude.Exec.{
  Ensures, Ensures-ok, Ensures-err, Ensures-map, Ensures-bind, after_modify, after_raise_if,
  after_fetch,
}
use boathouse_cloud.Db.{Db, PaymentOperation, PaymentIntent}
use boathouse_cloud.Db.Ledger.{has_ref}
use boathouse_cloud.Billing.Post.{balance}
use boathouse_cloud.Billing.Payments.{status_of, has_succeeded, stripe_ref}
use boathouse_cloud.Billing.Payments.Once.{owed}
use boathouse_cloud.Billing.Payments.Checked.{
  IsChecked, complete_payment-both, resumed_balance, resumed_ledger,
}
use boathouse_cloud.Billing.Execute.{Provider, Reply, intent, failure, has_failed}
use boathouse_cloud.Billing.Checkout.{
  Session, SessionIntent, absent, named, inside, Pages, Outcome, succeeded, expired, pending, fits,
  set_payment, read_intent, session_intent, fail_open, unpaid, paid_session, session_result,
}

-- The session is of the operation, for its amount and its customer.
pub record IsOwn (opid : ℕ) (op : PaymentOperation) (s : Session) : Type 0 where
  pub payment : s.is_payment ≡ true
  pub payer : s.customer ≡ op.customer
  pub amount : s.amount_total ≡ some op.cents
  pub dollars : s.is_usd ≡ true
  pub operation : s.operation ≡ some opid
  pub kept : is_some op.checkout_id ≡ true → op.checkout_id ≡ s.id
  pub prefix : s.has_prefix ≡ true

-- The intent that the processor has for the session.
abbrev pub Reads : Provider → SessionIntent → Option PaymentIntent → Type 0
Reads p absent o = o ≡ none
Reads p (named i) o = (p.get_intent i ≡ intent o) × (is_some o ≡ true)
Reads p (inside pi) o = o ≡ some pi

-- The payment is complete: the balance has moved by what was owed.
pub record IsPaid (opid : ℕ) (op : PaymentOperation) (pi : PaymentIntent) (b : ℤ)
    (before after : Db) : Type 0 where
  pub checked : IsChecked opid op pi
  pub i : ℕ
  pub identified : pi.id ≡ some i
  pub returned : b ≡ balance op.workspace_id after
  pub moved : balance op.workspace_id after ≡ balance op.workspace_id before +ℤ owed op i before
  pub recorded : has_ref (stripe_ref i) after.ledger ≡ true

abbrev pub with_session : ℕ → Session → Db → Db
with_session opid s db = record db {
  payments = update opid (λ o. record o { checkout_id = s.id }) db.payments;
}

abbrev pub Paid : ℕ → PaymentOperation → Option PaymentIntent → ℤ → Db → Db → Type 0
Paid opid op none b before after = ⊥
Paid opid op (some pi) b before after = IsPaid opid op pi b before after

abbrev pub Settles :
    ℕ → PaymentOperation → Session → Option PaymentIntent → Db → Outcome → Db → Type 0
Settles opid op s o before (succeeded b) after = Paid opid op o b before after
Settles opid op s o before expired after =
    (s.is_expired ≡ true)
    × ((o ≡ none) ⊎ (has_failed (status_of o) ≡ true))
    × (after ≡ set_payment opid fail_open (with_session opid s before))
Settles opid op s o before pending after =
    (has_succeeded (status_of o) ≡ false) × (after ≡ with_session opid s before)

own_lem :
    (opid : ℕ) (op : PaymentOperation) (s : Session)
    → not (fits opid op s) ≡ false
    → not s.has_prefix ≡ false
    → IsOwn opid op s
own_lem opid op s f p = record {
  payment = ground arith;
  payer = same-eq s.customer op.customer (ground arith);
  amount = same-eq s.amount_total (some op.cents) (ground arith);
  dollars = ground arith;
  operation = same-eq s.operation (some opid) (ground arith);
  kept = λ k. same-eq op.checkout_id s.id (ground arith);
  prefix = ground arith;
}

module _ (now opid : ℕ) (op : PaymentOperation) (s : Session) (db : Db) where
  paid-Settles :
      (pi : PaymentIntent)
      → Ensures
          (λ r t. Settles opid op s (some pi) db r t)
          (paid_session now opid op (some pi) (with_session opid s db))
  unfolding balance
  paid-Settles pi = Ensures-bind _ (
      Ensures-map
        (λ b t h. after_fetch _ _ _ λ ws there. Ensures-bind _ (
          Ensures-ok _ _ _ (
            Ensures-ok _ _ _ (record {
              checked = h.0;
              i = h.1.0;
              identified = h.1.1;
              returned = h.1.2.returned ∙ sym (resumed_balance _ op.workspace_id t);
              moved = resumed_balance _ op.workspace_id t ∙ h.1.2.moved;
              recorded =
                  ap (has_ref (stripe_ref h.1.0)) (resumed_ledger _ op.workspace_id t)
                  ∙ h.1.2.recorded;
            }))))
        (complete_payment-both now opid op pi (with_session opid s db) pi.id refl))

  no_longer :
      (o : Option PaymentIntent)
      → not (is_some o) || has_failed (status_of o) ≡ true
      → (o ≡ none) ⊎ (has_failed (status_of o) ≡ true)
  no_longer none h = inl refl
  no_longer (some pi) h = inr h

  unpaid-Settles :
      (o : Option PaymentIntent)
      → has_succeeded (status_of o) ≡ false
      → Ensures (λ r t. Settles opid op s o db r t) (unpaid opid op s o (with_session opid s db))
  unpaid-Settles o open_intent = after_raise_if _ _ _ λ m.
      elim (Bool-cases (s.is_expired && (not (is_some o) || has_failed (status_of o)))) [
        | inl over ↦
            rw over
              (after_modify _ _ (Ensures-ok _ _ _ (ground arith, no_longer o (ground arith), refl)))
        | inr live ↦ rw live (after_raise_if _ _ _ λ u. Ensures-ok _ _ _ (open_intent, refl))
      ]

  intent-Settles :
      (o : Option PaymentIntent)
      → Ensures
          (λ r t. Settles opid op s o db r t)
          ((if has_succeeded (status_of o) then paid_session now opid op o else unpaid opid op s o)
            (with_session opid s db))
  intent-Settles none = unpaid-Settles none refl
  intent-Settles (some pi) = elim (Bool-cases (has_succeeded pi.status)) [
    | inl done ↦ rw done (paid-Settles pi)
    | inr other ↦ rw other (unpaid-Settles (some pi) other)
  ]

session_intent-Reads :
    (p : Provider) (i : SessionIntent) (db : Db)
    → Ensures (λ o t. Reads p i o × (t ≡ db)) (session_intent p i db)
session_intent-Reads p absent db = Ensures-ok _ _ _ (refl, refl)
session_intent-Reads p (named i) db = go (p.get_intent i) refl
  where
    go :
        (r : Reply)
        → p.get_intent i ≡ r
        → Ensures (λ o t. Reads p (named i) o × (t ≡ db)) (read_intent r db)
    go (intent none) e = Ensures-err _ _ _
    go (intent (some pi)) e = Ensures-ok _ _ _ ((e, refl), refl)
    go (failure x) e = Ensures-err _ _ _
session_intent-Reads p (inside pi) db = Ensures-ok _ _ _ (refl, refl)

-- The result of a session, if it is one, is of a session of the operation's own, for its amount and
-- its customer, and follows from the intent that the processor has for the session. `succeeded`: that
-- intent succeeded in full, the balance that is returned is the workspace's and has moved by the
-- operation's amount, or not if the ledger had a line for the intent, and it has one now. `expired`: the
-- session has expired and the intent is absent or has failed; the operation is failed unless it
-- succeeded before. `pending`: the intent has not succeeded, and only the session is noted.
pub session_result-Settles :
    (p : Pages) (now opid : ℕ) (op : PaymentOperation) (s : Session) (db : Db)
    → Ensures
        (λ r after.
          IsOwn opid op s
          × ((o : Option PaymentIntent) × Reads p.payments s.payment_intent o
              × Settles opid op s o db r after))
        (session_result p now opid op s db)
unfolding session_result
session_result-Settles p now opid op s db = after_raise_if _ _ _ λ f. after_raise_if _ _ _ λ h.
    after_modify _ _ (
      Ensures-bind _ (
        Ensures-map
          (λ o t e.
            Ensures-map (λ r after k. (own_lem opid op s f h, (o, e.0, k)))
              (subst
                (λ d.
                  Ensures (λ r after. Settles opid op s o db r after)
                    ((if has_succeeded (status_of o)
                        then paid_session now opid op o
                        else unpaid opid op s o)
                      d))
                (sym e.1) (intent-Settles now opid op s db o)))
          (session_intent-Reads p.payments s.payment_intent (with_session opid s db))))
