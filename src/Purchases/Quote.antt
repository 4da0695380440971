-- ===== src/Purchases/Quote.antt =====
-- `quote` and `quote_view` of control/app/domain_payments.py. The registrar is a parameter: its answer
-- to a check of the domain, and to a purchase with `dry_run` at a price.
pub mod Priced
use boathouse_cloud.Prelude.{
  ℕ, ◌+◌, ◌*◌, Bool, true, false, not, ◌&&◌, ◌||◌, Option, none, some, [], ◌∷◌, ◌++◌, ◌==◌, ltb,
  is_some, if◌then◌else◌,
}
use boathouse_cloud.Prelude.Int.{ℤ, pos, ltb_ℤ}
use boathouse_cloud.Prelude.Table.{Table, find, last_row}
use boathouse_cloud.Prelude.Exec.{
  ok, err, pure, raise, raise_if, raise_when, modify, fetch, gets, or_raise, ◌>>=◌, ◌>>◌,
}
use boathouse_cloud.Db.{Db, DomainOperation, PurchaseState, RegistrarError, Code, Error, Action}
use boathouse_cloud.Billing.Post.{balance}
use boathouse_cloud.Purchases.Reserve.{holds_credit, has_conflict, require_namespace, operation}

abbrev pub quote_seconds : ℕ
quote_seconds = 30 * 60

abbrev pub domain_margin : ℕ
domain_margin = 200

-- `price_cents` is `none` where it is no integer; the other prices and `min_years` are 0 where they
-- are missing.
pub record Check : Type 0 where
  pub available : Bool
  pub premium : Bool
  pub price_cents : Option ℕ
  pub min_years : ℕ
  pub renewal_cents : ℕ
  pub regular_cents : ℕ

-- `cost` is absent, or a value that is an integer or not.
pub data DryCost : Type 0 where
  no_cost : DryCost
  cost_of : Option ℕ → DryCost

pub record DryRun : Type 0 where
  pub cost : DryCost
  pub would_fail : Bool

pub data Checked : Type 0 where
  checked : Check → Checked
  check_failed : RegistrarError → Checked

pub data Dried : Type 0 where
  dried : DryRun → Dried
  dry_failed : RegistrarError → Dried

-- `n or m`
abbrev pub or_else : ℕ → ℕ → ℕ
or_else n m = if n == 0 then m else n

-- `_integer` with a minimum of 1
abbrev pub positive : Option ℕ → Option ℕ
positive none = none
positive (some n) = if n == 0 then none else some n

abbrev pub dry_cost : ℕ → DryCost → Option ℕ
dry_cost cost no_cost = some cost
dry_cost cost (cost_of o) = o

-- What `quote` answers: the operation, and whether it would succeed.
pub record QuoteView : Type 0 where
  pub operation_id : ℕ
  pub row : DomainOperation
  pub would_succeed : Bool

pub quote_view : ℕ → DomainOperation → Db → QuoteView
quote_view oid row db = record {
  operation_id = oid;
  row = row;
  would_succeed =
      holds_credit row.state || not (ltb_ℤ (balance row.workspace_id db) (pos row.total_cents));
}

abbrev pub is_quoted_state : PurchaseState → Bool
is_quoted_state PurchaseState.quoted = true
is_quoted_state _ = false

abbrev pub is_current : ℕ → ℕ → ℕ → ℕ → DomainOperation → Bool
is_current now w domain i o =
    o.workspace_id == w
    && (o.domain == domain
        && (holds_credit o.state || (is_quoted_state o.state && ltb now o.expires)))

abbrev pub add_operation : ℕ → ℕ → ℕ → DomainOperation → Action QuoteView
add_operation ident w domain row = do
  raise_when (λ db. is_some (find ident db.purchases)) Error.crash
  modify (λ db. record db { purchases = db.purchases ++ (ident, row) ∷ [] })
  made ← operation w ident domain
  gets (quote_view ident made)

module _ (fingerprint : ℕ) (sandbox : Bool) where
  abbrev pub new_operation : ℕ → ℕ → ℕ → ℕ → Check → ℕ → DomainOperation
  new_operation now w domain by q reg_cost = record {
    workspace_id = w;
    domain = domain;
    state = PurchaseState.quoted;
    registrar_cents = reg_cost;
    margin_cents = domain_margin * or_else q.min_years 1;
    total_cents = reg_cost + domain_margin * or_else q.min_years 1;
    renewal_cents = or_else q.renewal_cents (or_else q.regular_cents reg_cost) + domain_margin;
    sandbox = sandbox;
    provider_fingerprint = fingerprint;
    created = now;
    expires = now + quote_seconds;
    created_by = by;
    started = none;
    lease_until = 0;
    provider_result = none;
  }

  abbrev pub quote_dry : ℕ → ℕ → ℕ → ℕ → ℕ → Check → ℕ → Dried → Action QuoteView
  quote_dry ident now w domain by q cost (dry_failed e) = raise (Error.registrar e)
  quote_dry ident now w domain by q cost (dried d) = do
    reg_cost ← or_raise (positive (dry_cost cost d.cost)) (Error.http 422 Code.bad_amount)
    raise_if d.would_fail (Error.http 409 Code.would_fail)
    add_operation ident w domain (new_operation now w domain by q reg_cost)

  abbrev pub quote_checked : (ℕ → Dried) → ℕ → ℕ → ℕ → ℕ → ℕ → Checked → Action QuoteView
  quote_checked dry ident now w domain by (check_failed e) = raise (Error.registrar e)
  quote_checked dry ident now w domain by (checked q) = do
    raise_if (not q.available) (Error.http 409 Code.taken)
    raise_if q.premium (Error.http 409 Code.premium)
    price ← or_raise (positive q.price_cents) (Error.http 422 Code.bad_amount)
    quote_dry ident now w domain by q (price * or_else q.min_years 1)
        (dry (price * or_else q.min_years 1))

  abbrev pub quote_by :
      Checked → (ℕ → Dried) → ℕ → ℕ → ℕ → ℕ → ℕ → Option (ℕ × DomainOperation) → Action QuoteView
  quote_by check dry ident now w domain by (some (i, row)) = gets (quote_view i row)
  quote_by check dry ident now w domain by none =
      raise_when (λ db. is_some (find domain db.domains)) (Error.http 409 Code.attached)
      >> quote_checked dry ident now w domain by check

  -- `quote`; `ident` is the identifier that it draws.
  unfoldable pub quote :
      (ℕ → ℕ → Bool) → Checked → (ℕ → Dried) → ℕ → ℕ → ℕ → ℕ → ℕ → Action QuoteView
  unfolding quote_view
  quote under check dry ident now w domain by = do
    require_namespace under w domain
    existing ← gets (λ db. last_row (is_current now w domain) db.purchases)
    quote_by check dry ident now w domain by existing
