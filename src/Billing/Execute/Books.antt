-- ===== src/Billing/Execute/Books.antt =====
-- The books stay in order whatever the provider answers.
use boathouse_cloud.Prelude.{
  ℕ, refl, Bool, true, false, Option, none, some, is_some, inl, inr, Bool-cases, Option-cases,
}
use boathouse_cloud.Prelude.Int.{ℤ}
use boathouse_cloud.Prelude.Exec.{
  Run, ok, err, Always, Always-bind, Always-raise_if, Always-raise_when, Always-modify,
  Always-fetched, Ensures-always, Ensures-map,
}
use boathouse_cloud.Db.{
  Db, Workspace, PaymentOperation, PaymentStatus, Payload, PaymentIntent, Error,
}
use boathouse_cloud.Db.Ledger.{IsBalanced}
use boathouse_cloud.Billing.Post.Books.{same_books}
use boathouse_cloud.Billing.Payments.Settle.{complete_payment-IsBalanced}
use boathouse_cloud.Billing.Payments.{status_of, has_succeeded}
use boathouse_cloud.Billing.Execute.{
  Reply, intent, failure, Provider, note_unresolved, payment_result, settle_reply, submit,
  submit_stored, retried, handled, attempt, begin_payment, execute_by, execute_payment,
}

note_unresolved-IsBalanced :
    (opid : ℕ) (pi : Option PaymentIntent) (db : Db)
    → IsBalanced db
    → Always IsBalanced (note_unresolved opid pi db)
unfolding note_unresolved
note_unresolved-IsBalanced opid pi db h =
    Always-raise_when _ _ _ h
      λ _. Always-modify _ _ (same_books refl refl h) (record { at_end = same_books refl refl h })

module _ (now opid : ℕ) (op : PaymentOperation) where
  payment_result-IsBalanced :
      (pi : Option PaymentIntent) (db : Db)
      → IsBalanced db
      → Always IsBalanced (payment_result now opid op pi db)
  unfolding payment_result
  payment_result-IsBalanced pi db h = Always-raise_if _ _ _ h λ _.
      elim (Bool-cases (has_succeeded (status_of pi))) [
        | inl e ↦ rw e (complete_payment-IsBalanced now opid op pi db h)
        | inr e ↦ rw e (note_unresolved-IsBalanced opid pi db h)
      ]

  retried-IsBalanced :
      (submitted : Bool) (x : Run Db Error ℤ)
      → Always IsBalanced x
      → Always IsBalanced (retried opid submitted x)
  retried-IsBalanced submitted (ok b db) h = h
  retried-IsBalanced submitted (err (Error.stripe e) db) h = record {
    at_end = same_books refl refl h.at_end;
  }
  retried-IsBalanced submitted (err _ db) h = h

  handled-IsBalanced :
      (submitted : Bool) (x : Run Db Error ℤ)
      → Always IsBalanced x
      → Always IsBalanced (handled now opid op submitted x)
  handled-IsBalanced submitted (ok b db) h = h
  handled-IsBalanced submitted (err (Error.stripe e) db) h =
      elim (Option-cases (e.payment_intent)) [
        | inl p ↦ rw p (record { at_end = same_books refl refl h.at_end })
        | inr (pi, p) ↦
            rw p (retried-IsBalanced submitted _ (payment_result-IsBalanced (some pi) db h.at_end))
      ]
  handled-IsBalanced submitted (err _ db) h = h

  module _ (provider : Provider) where
    settle_reply-IsBalanced :
        (r : Reply) (db : Db)
        → IsBalanced db
        → Always IsBalanced (settle_reply provider now opid op r db)
    settle_reply-IsBalanced (intent pi) db h = payment_result-IsBalanced pi db h
    settle_reply-IsBalanced (failure e) db h = record { at_end = h }

    submit-IsBalanced :
        (known : Option ℕ) (payload : Option Payload) (late : Bool) (db : Db)
        → IsBalanced db
        → Always IsBalanced (submit_stored provider now opid op known payload late db)
    submit-IsBalanced (some i) payload late db h =
        settle_reply-IsBalanced (provider.get_intent i) db h
    submit-IsBalanced none payload true db h = record { at_end = h }
    submit-IsBalanced none none false db h = record { at_end = h }
    submit-IsBalanced none (some payload) false db h =
        settle_reply-IsBalanced (provider.create_intent opid payload) db h

    attempt-IsBalanced :
        (submitted : Bool) (db : Db)
        → IsBalanced db
        → Always IsBalanced (attempt provider now opid op submitted db)
    unfolding attempt submit
    attempt-IsBalanced submitted db h =
        handled-IsBalanced submitted (submit provider now opid op db) (submit-IsBalanced _ _ _ db h)

begin_payment-IsBalanced :
    (now w : ℕ) (ws : Workspace) (opid : ℕ) (op : PaymentOperation) (db : Db)
    → IsBalanced db
    → Always IsBalanced (begin_payment now w ws opid op db)
unfolding begin_payment
begin_payment-IsBalanced now w ws opid op db h = Always-raise_if _ _ _ h λ _.
    Always-raise_if _ _ _ h λ _. Always-raise_when _ _ _ h λ _.
      Always-modify _ _ (same_books refl refl h) (Always-fetched _ _ _ (same_books refl refl h))

module _ (provider : Provider) (now w : ℕ) (ws : Workspace) (opid : ℕ) (op : PaymentOperation) where
  execute_by-IsBalanced :
      (checkout : Bool) (st : PaymentStatus) (db : Db)
      → IsBalanced db
      → Always IsBalanced (execute_by provider now w ws opid op checkout st db)
  execute_by-IsBalanced true st db h = record { at_end = h }
  execute_by-IsBalanced false PaymentStatus.succeeded db h = record { at_end = h }
  execute_by-IsBalanced false PaymentStatus.failed db h = record { at_end = h }
  execute_by-IsBalanced false PaymentStatus.quoted db h =
      let begun = begin_payment-IsBalanced now w ws opid op db h in
      Always-bind _ _ begun (
        Ensures-map (λ sent t k. attempt-IsBalanced now opid sent provider false t k)
          (Ensures-always IsBalanced _ begun.at_end))
  execute_by-IsBalanced false PaymentStatus.pending db h =
      attempt-IsBalanced now opid op provider true db h
  execute_by-IsBalanced false PaymentStatus.unknown db h =
      attempt-IsBalanced now opid op provider true db h

  -- Executing a payment, whatever the provider answers and whether it returns or raises, keeps every
  -- balance equal to the sum of the workspace's ledger lines.
  pub execute_payment-IsBalanced :
      (db : Db) → IsBalanced db → Always IsBalanced (execute_payment provider now w ws opid op db)
  unfolding execute_payment
  execute_payment-IsBalanced db h =
      execute_by-IsBalanced (is_some op.checkout_payload) op.status db h
