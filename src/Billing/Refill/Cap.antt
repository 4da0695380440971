-- ===== src/Billing/Refill/Cap.antt =====
-- A refill stays within its monthly cap.
use boathouse_cloud.Prelude.{
  ℕ, ◌≡◌, ◌≤◌, refl, ap, false, not, ◌||◌, Option, none, some, arith, inl, inr, Bool-cases, ltb,
  ◌==◌,
}
use boathouse_cloud.Prelude.Int.{
  ℤ, pos, ◌+ℤ◌, ◌-ℤ◌, ◌≤ℤ◌, ltb_ℤ, nonneg, pos_part, neg_part, negsuc, int_laws,
}
use boathouse_cloud.Prelude.Table.{first_row}
use boathouse_cloud.Prelude.Exec.{
  Ensures, Ensures-ok, after_modify, after_gets, after_raise_if, after_raise_when, Ensures-bind,
}
use boathouse_cloud.Db.{Db, Workspace, PaymentOperation, PaymentKind}
use boathouse_cloud.Billing.Post.{balance}
use boathouse_cloud.Billing.Topup.{open_of, quoted_payment}
use boathouse_cloud.Billing.Refill.{
  meter_name, Month, refilled, refill_amount, refill_below, plan_new, plan_refill,
}

within_cap :
    (x spent : ℤ) (cap m : ℕ)
    → x ≡ pos cap -ℤ spent
    → 50 ≤ m
    → m ≤ nonneg x
    → spent +ℤ pos m ≤ℤ pos cap
within_cap (pos n) spent cap m e lo hi = omega (int_laws, ap pos_part e, ap neg_part e)
within_cap (negsuc n) spent cap m e lo hi = omega arith

at_least : (m : ℕ) → ltb m 50 ≡ false → 50 ≤ m
at_least m h = ground arith

module _ (ident now : ℕ) (month : Month) (w : ℕ) (ws : Workspace) (db : Db) where
  -- A payment that is due: at least 50 cents, at most the refill, and with what was refilled this
  -- month at most the cap.
  pub record IsCapped (op : PaymentOperation) : Type 0 where
    pub enough : 50 ≤ op.cents
    pub by_setting : op.cents ≤ ws.autorefill_cents
    pub by_cap : refilled w month.start db.ledger +ℤ pos op.cents ≤ℤ pos ws.autorefill_cap_cents

  -- The payment of a plan, if there is one.
  abbrev pub Capped : Option (ℕ × PaymentOperation) → Type 0
  Capped none = Unit
  Capped (some (i, op)) = IsCapped op

  capped :
      (amount : ℕ)
      → amount ≡ refill_amount w month ws db
      → 50 ≤ amount
      → IsCapped (quoted_payment now w amount meter_name PaymentKind.auto (some month.name))
  capped amount e enough = record {
    enough = enough;
    by_setting = omega (arith, e);
    by_cap = within_cap _ _ _ amount refl enough (omega (arith, e));
  }

  plan_new-Capped : Ensures (λ r _. Capped r) (plan_new ident now month w ws db)
  plan_new-Capped =
      elim (Bool-cases (ws.autorefill_cents == 0 || not (ltb_ℤ (balance w db) refill_below))) [
        | inl idle ↦ rw idle (Ensures-ok _ _ _ tt)
        | inr due ↦ rw due (
            after_raise_if _ _ _ λ _. after_gets _ _ (
              after_raise_if _ _ _ λ high. Ensures-bind _ (
                after_raise_when _ _ _ λ _. after_modify _ _ (
                  Ensures-ok _ _ _ (
                    Ensures-ok _ _ _
                      (capped (refill_amount w month ws db) refl (at_least _ high)))))))
      ]

  -- Where no payment of the workspace is open, the payment that a refill plans, if any, is of at
  -- least 50 cents and at most the refill that the owner set, and with the refills of the month it is
  -- at most the owner's cap.
  pub plan_refill-Capped :
      first_row (open_of w) db.payments ≡ none
      → Ensures (λ r _. Capped r) (plan_refill ident now month w ws db)
  unfolding plan_refill
  plan_refill-Capped none_open = rw none_open plan_new-Capped
