-- ===== src/Billing/Webhook/Authentic.antt =====
-- What a webhook that is accepted has done.
use boathouse_cloud.Prelude.{
  ℕ, ◌+◌, ◌≤◌, ◌≡◌, refl, sym, ap, subst, ◌∙◌, true, false, not, ◌||◌, Option, none, some, arith,
  is_some, same-eq,
}
use boathouse_cloud.Prelude.Table.{update, first_row}
use boathouse_cloud.Prelude.Table.Where.{HasRow, first_row-HasRow, first_row_meets}
use boathouse_cloud.Prelude.Exec.{
  ok, gets, ◌>>=◌, Ensures, Ensures-ok, Ensures-err, Ensures-map, Ensures-itself, Ensures-bind,
  after_gets, after_modify, after_raise_if,
}
use boathouse_cloud.Db.{Db, Workspace, PaymentOperation, PaymentIntent}
use boathouse_cloud.Billing.Webhook.Credits.{IsCredited, named_operation-of, credit-IsCredited}
use boathouse_cloud.Billing.Returns.{named_operation, reconcile}
use boathouse_cloud.Billing.Webhook.{
  Event, returned, paid, card_saved, other_event, Field, field, unread, Hooks, Signature, is_fresh,
  Handled, reconciled, credited, saved, ignored, read_field, reconcile_known, credit_named,
  of_customer, save_setup, handle_event, handle_webhook,
}

pub record IsAuthentic (now : ℕ) (s : Signature) : Type 0 where
  pub signed : s.is_signed ≡ true
  pub stamp : ℕ
  pub stamped : s.stamp ≡ some stamp
  pub not_late : now ≤ stamp + 600
  pub not_early : stamp ≤ now + 600

-- The card becomes that of a workspace of the customer.
pub record IsSaved (hooks : Hooks) (setup : ℕ) (customer : Option ℕ) (before after : Db)
    : Type 0 where
  pub w : ℕ
  pub ws : Workspace
  pub card : ℕ
  pub row : HasRow w ws before.workspaces
  pub known : is_some customer ≡ true
  pub owner : ws.stripe_customer ≡ customer
  pub read : hooks.setup_card setup ≡ field (some card)
  pub changed : after ≡ record before {
    workspaces = update w (λ old. record old { stripe_pm = some card }) before.workspaces;
  }

-- The intent that a refund or a dispute names, itself or by its charge.
abbrev pub Names : Hooks → Option ℕ → Option ℕ → ℕ → Type 0
Names hooks (some i) charge j = i ≡ j
Names hooks none none j = ⊥
Names hooks none (some charge) j = hooks.charge_intent charge ≡ field (some j)

abbrev pub IsHandled : Hooks → ℕ → ℕ → Event → Db → Handled → Db → Type 0
IsHandled hooks ident now event before ignored after = after ≡ before
IsHandled hooks ident now (paid pi) before credited after = IsCredited pi before after
IsHandled hooks ident now (card_saved setup customer) before saved after =
    IsSaved hooks setup customer before after
IsHandled hooks ident now (returned i charge) before (reconciled r) after =
    (j : ℕ) × Names hooks i charge j × (reconcile hooks.processor ident now j before ≡ ok r after)
IsHandled _ _ _ _ _ _ _ = ⊥

module _ (hooks : Hooks) (ident now : ℕ) (db : Db) where
  reconcile-IsHandled :
      (i charge : Option ℕ) (o : Option ℕ)
      → ((j : ℕ) → o ≡ some j → Names hooks i charge j)
      → Ensures
          (λ r s. IsHandled hooks ident now (returned i charge) db r s)
          (reconcile_known hooks.processor ident now o db)
  reconcile-IsHandled i charge none h = Ensures-ok _ _ _ refl
  reconcile-IsHandled i charge (some j) h = Ensures-bind _ (
      Ensures-map (λ r s e. Ensures-ok _ _ _ (j, h j refl, e))
        (Ensures-itself (reconcile hooks.processor ident now j db)))

  returned-IsHandled :
      (i charge : Option ℕ)
      → Ensures
          (λ r s. IsHandled hooks ident now (returned i charge) db r s)
          (handle_event hooks ident now (returned i charge) db)
  returned-IsHandled (some i) charge =
      Ensures-bind _ (Ensures-ok _ _ _ (reconcile-IsHandled (some i) charge (some i) (λ j e. cc)))
  returned-IsHandled none none =
      Ensures-bind _ (Ensures-ok _ _ _ (reconcile-IsHandled none none none (λ j e. ground arith)))
  returned-IsHandled none (some c) = Ensures-bind _ (go (hooks.charge_intent c) refl)
    where
      go :
          (f : Field)
          → hooks.charge_intent c ≡ f
          → Ensures
              (λ o t.
                Ensures
                  (λ r s. IsHandled hooks ident now (returned none (some c)) db r s)
                  (reconcile_known hooks.processor ident now o t))
              (read_field f db)
      go (field o) e =
          Ensures-ok _ _ _ (reconcile-IsHandled none (some c) o (λ j h. e ∙ ap field h))
      go (unread x) e = Ensures-err _ _ _

  saved-IsHandled :
      (setup : ℕ) (customer : Option ℕ)
      → Ensures
          (λ r s. IsHandled hooks ident now (card_saved setup customer) db r s)
          (handle_event hooks ident now (card_saved setup customer) db)
  saved-IsHandled setup customer = Ensures-bind _ (go (hooks.setup_card setup) refl)
    where
      by_row :
          (card : Option ℕ) (o : Option (ℕ × Workspace))
          → hooks.setup_card setup ≡ field card
          → first_row (of_customer customer) db.workspaces ≡ o
          → Ensures
              (λ r s. IsHandled hooks ident now (card_saved setup customer) db r s)
              (save_setup card o db)
      by_row none o e f = Ensures-ok _ _ _ refl
      by_row (some card) none e f = Ensures-ok _ _ _ refl
      by_row (some card) (some (w, ws)) e f =
          let met = first_row_meets (of_customer customer) db.workspaces w ws f in
          after_modify _ _ (
            Ensures-ok _ _ _ (record {
              w = w;
              ws = ws;
              card = card;
              row = first_row-HasRow (of_customer customer) db.workspaces w ws f;
              known = ground arith;
              owner = same-eq ws.stripe_customer customer (ground arith);
              read = e;
              changed = refl;
            }))

      go :
          (f : Field)
          → hooks.setup_card setup ≡ f
          → Ensures
              (λ card t.
                Ensures
                  (λ r s. IsHandled hooks ident now (card_saved setup customer) db r s)
                  ((gets (λ d. first_row (of_customer customer) d.workspaces) >>= save_setup card)
                    t))
              (read_field f db)
      go (field card) e = Ensures-ok _ _ _ (after_gets _ _ (by_row card _ e refl))
      go (unread x) e = Ensures-err _ _ _

  paid-IsHandled :
      (pi : PaymentIntent)
      → Ensures
          (λ r s. IsHandled hooks ident now (paid pi) db r s)
          (handle_event hooks ident now (paid pi) db)
  paid-IsHandled pi = after_gets _ _ (go (named_operation (some pi) db) refl)
    where
      go :
          (o : Option (ℕ × PaymentOperation))
          → named_operation (some pi) db ≡ o
          → Ensures (λ r s. IsHandled hooks ident now (paid pi) db r s) (credit_named now pi o db)
      go none e = Ensures-ok _ _ _ refl
      go (some (opid, op)) e =
          let found = named_operation-of pi db opid op e in
          Ensures-map
            (λ r s h. subst (λ x. IsHandled hooks ident now (paid pi) db x s) (sym h.0) h.1)
            (credit-IsCredited now opid op pi db found.0 found.1)

  event-IsHandled :
      (event : Event)
      → Ensures
          (λ r s. IsHandled hooks ident now event db r s)
          (handle_event hooks ident now event db)
  event-IsHandled (returned i charge) = returned-IsHandled i charge
  event-IsHandled (paid pi) = paid-IsHandled pi
  event-IsHandled (card_saved setup customer) = saved-IsHandled setup customer
  event-IsHandled other_event = Ensures-ok _ _ _ refl

authentic_lem :
    (now : ℕ) (s : Signature) (stamp : Option ℕ)
    → s.stamp ≡ stamp
    → (not (is_fresh now stamp) || not s.is_signed) ≡ false
    → IsAuthentic now s
authentic_lem now s none e h = ground arith
authentic_lem now s (some t) e h = record {
  signed = ground arith;
  stamp = t;
  stamped = e;
  not_late = ground arith;
  not_early = ground arith;
}

-- A webhook that returns was signed, with a stamp at most ten minutes from now. What it answers says
-- what it has done. `ignored`: nothing is changed. `credited`: the event is a payment that succeeded in
-- full, in dollars and by the customer of the operation that it names; the workspace's balance has
-- moved by the operation's amount, or not if the ledger had a line for the intent, and it has one now.
-- `saved`: the card that the processor reads is now that of a workspace of the event's customer, and
-- nothing else is changed. `reconciled`: the payment that the event or its charge names was reconciled.
pub handle_webhook-IsHandled :
    (hooks : Hooks) (ident now : ℕ) (signature : Signature) (event : Event) (db : Db)
    → Ensures
        (λ r s. IsAuthentic now signature × IsHandled hooks ident now event db r s)
        (handle_webhook hooks ident now signature event db)
unfolding handle_webhook
handle_webhook-IsHandled hooks ident now signature event db = after_raise_if _ _ _ λ h.
    Ensures-map (λ r s k. (authentic_lem now signature signature.stamp refl h, k))
      (event-IsHandled hooks ident now db event)
