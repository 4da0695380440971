-- ===== src/Tests/Domains.antt =====
-- A domain purchase on a small store.
use boathouse_cloud.Prelude.{ℕ, ◌≡◌, refl, true, false, Bool, Option, none, some, [], ◌∷◌, arith}
use boathouse_cloud.Prelude.Int.{pos, ◌+ℤ◌, ◌-ℤ◌}
use boathouse_cloud.Prelude.Exec.{final, ok, err, Always, Ensures, atomically, ◌>>=◌}
use boathouse_cloud.Db.{Db, DomainOperation, PurchaseState, Proof}
use boathouse_cloud.Billing.Post.{balance}
use boathouse_cloud.Purchases.Reserve.{has_conflict, reserve}
use boathouse_cloud.Purchases.Finish.{answer, purchase}
use boathouse_cloud.Purchases.Holding.{IsSound}
use boathouse_cloud.Purchases.Sound.{purchase-IsSound}
use boathouse_cloud.Purchases.Quote.{Check, checked, Dried, dried, no_cost, quote}
use boathouse_cloud.Purchases.Quote.Priced.{IsPriced, quote-IsPriced}
use boathouse_cloud.Tests.Money.{store, store-IsBalanced}

abbrev quoted : DomainOperation
quoted = record {
  workspace_id = 1;
  domain = 60;
  state = PurchaseState.quoted;
  registrar_cents = 400;
  margin_cents = 100;
  total_cents = 500;
  renewal_cents = 500;
  sandbox = false;
  provider_fingerprint = 70;
  created = 0;
  expires = 100;
  created_by = 3;
  started = none;
  lease_until = 0;
  provider_result = none;
}

abbrev with_quote : Db
with_quote = record store { purchases = (9, quoted) ∷ [] }

with_quote-IsSound : IsSound with_quote
unfolding ◌+ℤ◌
with_quote-IsSound = record {
  books = record { at = store-IsBalanced.at };
  credit = record { at = λ oid o e. ground arith };
}

abbrev proof : Proof
proof = record {
  success = true;
  pending = false;
  domain = some 60;
  order_id = some 8;
  dry_run = false;
  has_cost = true;
  cost = some 400;
  expiration = none;
}

abbrev no_parent : ℕ → ℕ → Bool
no_parent a b = false

bought :
    balance 1 (final (purchase no_parent 70 false 20 1 9 60 (some 500) (answer proof) with_quote))
    ≡ pos 200
unfolding purchase reserve balance has_conflict atomically ◌>>=◌ ◌+ℤ◌ ◌-ℤ◌
bought = refl

purchase-IsSound_example :
    Always IsSound (purchase no_parent 70 false 20 1 9 60 (some 500) (answer proof) with_quote)
purchase-IsSound_example =
    purchase-IsSound no_parent 70 false 20 1 9 60 (some 500) (answer proof) with_quote
      with_quote-IsSound

-- A free domain at 400 cents for one year.
abbrev free : Check
free = record {
  available = true;
  premium = false;
  price_cents = some 400;
  min_years = 1;
  renewal_cents = 0;
  regular_cents = 0;
}

abbrev dry_run : ℕ → Dried
dry_run cost = dried (record { cost = no_cost; would_fail = false })

quote-IsPriced_example :
    Ensures
      (λ v s. IsPriced no_parent (checked free) dry_run 10 20 1 61 with_quote v s)
      (quote 70 false no_parent (checked free) dry_run 10 20 1 61 3 with_quote)
quote-IsPriced_example =
    quote-IsPriced 70 false no_parent (checked free) dry_run 10 20 1 61 3 with_quote

-- A new quote is made there.
quote_made :
    (elim (quote 70 false no_parent (checked free) dry_run 10 20 1 61 3 with_quote)
      as (λ _. Option ℕ) [ ok v s ↦ some v.row.total_cents | err e s ↦ none ])
    ≡ some 600
unfolding quote balance has_conflict ◌>>=◌
quote_made = refl
