-- ===== src/Tests/Checkout.antt =====
-- A payment by a webhook and by a checkout session: control/app/billing.py and control/app/checkout.py.
use boathouse_cloud.Prelude.{◌≡◌, refl, true, false, Option, none, some}
use boathouse_cloud.Prelude.Int.{ℤ, pos, ◌+ℤ◌, ◌-ℤ◌}
use boathouse_cloud.Prelude.Exec.{Run, ok, err, atomically, Ensures, ◌>>=◌}
use boathouse_cloud.Db.{Db, PaymentIntent, IntentStatus, Error}
use boathouse_cloud.Referrals.Usage.{drain, deposit, spend, replay_line, paid, paid_usage}
use boathouse_cloud.Referrals.Sync.{sync}
use boathouse_cloud.Billing.Post.{balance}
use boathouse_cloud.Billing.Payments.{matches, complete_payment}
use boathouse_cloud.Billing.Webhook.{Event, Hooks, field, Signature, handle_webhook}
use boathouse_cloud.Billing.Webhook.Authentic.{IsAuthentic, IsHandled, handle_webhook-IsHandled}
use boathouse_cloud.Billing.Checkout.{
  Pages, Session, SessionIntent, refused, alive, not_created, session_result,
}
use boathouse_cloud.Billing.Checkout.Settled.{IsOwn, Reads, Settles, session_result-Settles}
use boathouse_cloud.Tests.Money.{refusal, store, open_payment, refusing}
use boathouse_cloud.Tests.Usage.{processor}

abbrev full : PaymentIntent
full = record {
  id = some 51;
  amount = some 500;
  amount_received = some 500;
  is_usd = true;
  customer = some 40;
  has_metadata = true;
  operation = some 12;
  status = IntentStatus.succeeded;
  payment_method = some 41;
}

abbrev hooks : Hooks
hooks = record {
  processor = processor;
  charge_intent = λ i. field none;
  setup_card = λ i. field (some 42);
}

abbrev signature : Signature
signature = record { stamp = some 20; is_signed = true }

abbrev pages : Pages
pages = record {
  payments = refusing;
  get_session = λ i. refused refusal;
  create_session = λ i payload. refused refusal;
  get_customer = λ c. alive;
  new_customer = not_created refusal;
}

abbrev page : Session
page = record {
  is_payment = true;
  customer = some 40;
  amount_total = some 500;
  is_usd = true;
  operation = some 12;
  id = some 80;
  has_prefix = true;
  payment_intent = SessionIntent.inside full;
  is_expired = false;
  url_ok = true;
}

-- The balance after a call that returns.
abbrev balance_after : {A : Type 0} → Run Db Error A → Option ℤ
balance_after (ok a db) = some (balance 1 db)
balance_after (err e db) = none

credits :
    balance_after (handle_webhook hooks 91 20 signature (Event.paid full) store) ≡ some (pos 1200)
unfolding handle_webhook balance complete_payment matches sync paid_usage replay_line deposit spend
    drain paid atomically ◌>>=◌ ◌+ℤ◌ ◌-ℤ◌
credits = refl

stale : balance_after (handle_webhook hooks 91 621 signature (Event.paid full) store) ≡ none
unfolding handle_webhook ◌>>=◌
stale = refl

checked_out : balance_after (session_result pages 20 12 open_payment page store) ≡ some (pos 1200)
unfolding session_result balance complete_payment matches sync paid_usage replay_line deposit spend
    drain paid atomically ◌>>=◌ ◌+ℤ◌ ◌-ℤ◌
checked_out = refl

handle_webhook-IsHandled_example :
    Ensures
      (λ r s. IsAuthentic 20 signature × IsHandled hooks 91 20 (Event.paid full) store r s)
      (handle_webhook hooks 91 20 signature (Event.paid full) store)
handle_webhook-IsHandled_example =
    handle_webhook-IsHandled hooks 91 20 signature (Event.paid full) store

session_result-Settles_example :
    Ensures
      (λ r after.
        IsOwn 12 open_payment page
        × ((o : Option PaymentIntent) × Reads refusing page.payment_intent o
            × Settles 12 open_payment page o store r after))
      (session_result pages 20 12 open_payment page store)
session_result-Settles_example = session_result-Settles pages 20 12 open_payment page store
