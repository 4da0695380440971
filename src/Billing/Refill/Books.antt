-- ===== src/Billing/Refill/Books.antt =====
-- A refill keeps the books.
use boathouse_cloud.Prelude.{
  ℕ, refl, Bool, false, not, ◌||◌, ◌&&◌, Option, none, some, inl, inr, Bool-cases, ◌==◌,
}
use boathouse_cloud.Prelude.Int.{ℤ, ltb_ℤ}
use boathouse_cloud.Prelude.Table.{first_row}
use boathouse_cloud.Prelude.Exec.{
  Always, Always-bind, Always-raise_if, Always-raise_when, Always-modify, Always-fetch, Ensures-ok,
  Ensures-map, Ensures-always,
}
use boathouse_cloud.Db.{Db, Workspace, PaymentOperation, PaymentKind}
use boathouse_cloud.Db.Ledger.{IsBalanced, update-IsBalanced}
use boathouse_cloud.Billing.Post.{balance}
use boathouse_cloud.Billing.Post.Books.{same_books}
use boathouse_cloud.Billing.Execute.{Provider}
use boathouse_cloud.Billing.Execute.Books.{execute_payment-IsBalanced}
use boathouse_cloud.Billing.Topup.{open_of, new_payment}
use boathouse_cloud.Billing.Refill.{
  Month, refill_below, refill_amount, set_paused, plan_new, plan_by, plan_refill, is_paused,
  pause_at, resume_if_paid, execute_refill, auto_refill,
}

pub set_paused-IsBalanced :
    (b : Bool) (w : ℕ) (db : Db) → IsBalanced db → IsBalanced (set_paused b w db)
set_paused-IsBalanced b w db h =
    update-IsBalanced w (λ ws. record ws { paused = b }) db (λ ws. refl) h

pub resumed-IsBalanced :
    (w : ℕ) (b : ℤ) (db : Db) → IsBalanced db → Always IsBalanced (resume_if_paid w b db)
resumed-IsBalanced w b db h = elim (Bool-cases (is_paused w db && ltb_ℤ pause_at b)) [
  | inl e ↦ rw e (record { at_end = set_paused-IsBalanced false w db h })
  | inr e ↦ rw e (record { at_end = h })
]

new_payment-IsBalanced :
    (ident now w cents by : ℕ) (kind : PaymentKind) (month : Option ℕ) (db : Db)
    → IsBalanced db
    → Always IsBalanced (new_payment ident now w cents by kind month db)
new_payment-IsBalanced ident now w cents by kind month db h =
    Always-raise_when _ _ _ h
      λ _. Always-modify _ _ (same_books refl refl h) (record { at_end = same_books refl refl h })

plan_new-IsBalanced :
    (ident now : ℕ) (month : Month) (w : ℕ) (ws : Workspace) (db : Db)
    → IsBalanced db
    → Always IsBalanced (plan_new ident now month w ws db)
plan_new-IsBalanced ident now month w ws db h =
    let made =
      new_payment-IsBalanced ident now w (refill_amount w month ws db) 0 PaymentKind.auto
        (some month.name) db h in
    elim (Bool-cases (ws.autorefill_cents == 0 || not (ltb_ℤ (balance w db) refill_below))) [
      | inl e ↦ rw e (record { at_end = h })
      | inr e ↦ rw e (
          Always-raise_if _ _ _ h λ _.
            Always-bind _ _ (record { at_end = h })
              (Ensures-ok _ _ _ (
                Always-raise_if _ _ _ h λ _. Always-bind _ _ made (
                  Ensures-map (λ op t k. record { at_end = k })
                    (Ensures-always IsBalanced _ made.at_end)))))
    ]

plan_by-IsBalanced :
    (ident now : ℕ) (month : Month) (w : ℕ) (ws : Workspace) (o : Option (ℕ × PaymentOperation))
    (db : Db)
    → IsBalanced db
    → Always IsBalanced (plan_by ident now month w ws o db)
plan_by-IsBalanced ident now month w ws none db h = plan_new-IsBalanced ident now month w ws db h
plan_by-IsBalanced ident now month w ws (some (i, op)) db h =
    Always-raise_if _ _ _ h λ _. Always-raise_if _ _ _ h λ _. record { at_end = h }

execute_refill-IsBalanced :
    (provider : Provider) (now w : ℕ) (ws : Workspace) (o : Option (ℕ × PaymentOperation)) (db : Db)
    → IsBalanced db
    → Always IsBalanced (execute_refill provider now w ws o db)
execute_refill-IsBalanced provider now w ws none db h = record { at_end = h }
execute_refill-IsBalanced provider now w ws (some (i, op)) db h =
    let sent = execute_payment-IsBalanced provider now w ws i op db h in
    Always-bind _ _ sent
      (Ensures-map (λ b t k. resumed-IsBalanced w b t k) (Ensures-always IsBalanced _ sent.at_end))

-- A refill, whatever the provider answers and whether it returns or raises, keeps every balance equal
-- to the sum of the workspace's ledger lines.
pub auto_refill-IsBalanced :
    (provider : Provider) (ident now : ℕ) (month : Month) (w : ℕ) (db : Db)
    → IsBalanced db
    → Always IsBalanced (auto_refill provider ident now month w db)
unfolding auto_refill plan_refill
auto_refill-IsBalanced provider ident now month w db h = Always-fetch _ _ _ h λ ws _.
    let plan = plan_by-IsBalanced ident now month w ws (first_row (open_of w) db.payments) db h in
    Always-bind _ _ plan (
      Ensures-map (λ o t k. execute_refill-IsBalanced provider now w ws o t k)
        (Ensures-always IsBalanced _ plan.at_end))
