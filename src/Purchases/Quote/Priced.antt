-- ===== src/Purchases/Quote/Priced.antt =====
-- What a quote promises: its price, its domain and what it answers.
use boathouse_cloud.Prelude.{
  ℕ, ◌+◌, ◌*◌, ◌≤◌, ◌≡◌, ◌⊎◌, inl, inr, refl, sym, subst, ◌∙◌, Bool, true, false, not, ◌&&◌, ◌||◌,
  Option, none, some, [], ◌∷◌, ◌++◌, arith, is_some, ltb,
}
use boathouse_cloud.Prelude.Int.{pos, ltb_ℤ}
use boathouse_cloud.Prelude.Table.{find, find-append, last_row}
use boathouse_cloud.Prelude.Table.Where.{HasRow, last_row-HasRow, append-HasRow}
use boathouse_cloud.Prelude.Exec.{
  Ensures, Ensures-ok, Ensures-err, after_modify, after_gets, after_raise_if, after_raise_when,
  after_fetch, after_or_raise,
}
use boathouse_cloud.Db.{Db, DomainOperation, PurchaseState}
use boathouse_cloud.Billing.Post.{balance}
use boathouse_cloud.Purchases.Reserve.{holds_credit, has_conflict, belongs}
use boathouse_cloud.Purchases.Quote.{
  Check, Checked, checked, check_failed, Dried, dried, dry_failed, DryRun, or_else, positive,
  dry_cost, is_current, is_quoted_state, quote_view, QuoteView, new_operation, add_operation,
  quote_dry, quote_checked, quote_by, quote,
}

-- An earlier quote of the domain stands, or its purchase does.
pub record IsKept (now : ℕ) (row : DomainOperation) (before after : Db) : Type 0 where
  pub in_force : holds_credit row.state || (is_quoted_state row.state && ltb now row.expires) ≡ true
  pub same : after ≡ before

-- The registrar's check and dry run allow the purchase, and the price is its cost and the margin of
-- two dollars for each year.
pub record IsMade (check : Checked) (dry : ℕ → Dried) (ident now domain : ℕ) (row : DomainOperation)
    (before after : Db) : Type 0 where
  pub q : Check
  pub price : ℕ
  pub d : DryRun
  pub answered : check ≡ checked q
  pub available : q.available ≡ true
  pub ordinary : q.premium ≡ false
  pub priced : q.price_cents ≡ some price
  pub tried : dry (price * or_else q.min_years 1) ≡ dried d
  pub accepted : d.would_fail ≡ false
  pub cost : dry_cost (price * or_else q.min_years 1) d.cost ≡ some row.registrar_cents
  pub cost_positive : 1 ≤ row.registrar_cents
  pub total : row.total_cents ≡ row.registrar_cents + 200 * or_else q.min_years 1
  pub quoted : row.state ≡ PurchaseState.quoted
  pub half_hour : row.expires ≡ now + 1800
  pub unattached : find domain before.domains ≡ none
  pub added : after ≡ record before { purchases = before.purchases ++ (ident, row) ∷ [] }

pub record IsPriced (under : ℕ → ℕ → Bool) (check : Checked) (dry : ℕ → Dried)
    (ident now w domain : ℕ) (before : Db) (v : QuoteView) (after : Db) : Type 0 where
  pub owner : v.row.workspace_id ≡ w
  pub name : v.row.domain ≡ domain
  pub stored : HasRow v.operation_id v.row after.purchases
  pub answer :
      v.would_succeed
      ≡ holds_credit v.row.state || not (ltb_ℤ (balance w before) (pos v.row.total_cents))
  pub allowed : has_conflict under w domain before ≡ false
  pub outcome : IsKept now v.row before after ⊎ IsMade check dry ident now domain v.row before after

is_none : {A : Type 0} (o : Option A) → is_some o ≡ false → o ≡ none
is_none none e = refl
is_none (some a) e = ground arith

positive-eq : (o : Option ℕ) (n : ℕ) → positive o ≡ some n → (o ≡ some n) × (1 ≤ n)
positive-eq none n e = ground arith
positive-eq (some m) n e = ground arith

module _ (fingerprint : ℕ) (sandbox : Bool) (under : ℕ → ℕ → Bool) (ident now w domain by : ℕ)
    (db : Db) (allowed : has_conflict under w domain db ≡ false) where
  added : DomainOperation → Db
  added row = record db { purchases = db.purchases ++ (ident, row) ∷ [] }

  found_again :
      (row : DomainOperation)
      → find ident db.purchases ≡ none
      → row.workspace_id ≡ w
      → row.domain ≡ domain
      → belongs w domain (find ident (added row).purchases) ≡ some row
  unfolding added
  found_again row free ow nm = ground (arith, find-append ident ident row db.purchases)

  view-IsPriced :
      (check : Checked) (dry : ℕ → Dried) (row : DomainOperation)
      → row.workspace_id ≡ w
      → row.domain ≡ domain
      → IsMade check dry ident now domain row db (added row)
      → IsPriced under check dry ident now w domain db
          (quote_view ident row (added row))
          (added row)
  unfolding added quote_view balance
  view-IsPriced check dry row ow nm made = record {
    owner = ow;
    name = nm;
    stored = append-HasRow ident row db.purchases;
    answer = rw ow refl;
    allowed = allowed;
    outcome = inr made;
  }

  add_operation-IsPriced :
      (check : Checked) (dry : ℕ → Dried) (row : DomainOperation)
      → row.workspace_id ≡ w
      → row.domain ≡ domain
      → IsMade check dry ident now domain row db (added row)
      → Ensures
          (λ v s. IsPriced under check dry ident now w domain db v s)
          (add_operation ident w domain row db)
  unfolding added
  add_operation-IsPriced check dry row ow nm made = after_raise_when _ _ _ λ taken.
      after_modify _ _ (
        after_fetch _ _ _ λ o e. Ensures-ok _ _ _ (
          let both : some row ≡ some o = sym (found_again row (is_none _ taken) ow nm) ∙ e in
          let same : row ≡ o = cc in
          subst
            (λ r.
              IsPriced under check dry ident now w domain db (quote_view ident r (added row))
                (added row))
            same (view-IsPriced check dry row ow nm made)))

  module _ (dry : ℕ → Dried) (unattached : find domain db.domains ≡ none) where
    dry-IsPriced :
        (q : Check) (price : ℕ) (r : Dried)
        → q.available ≡ true
        → q.premium ≡ false
        → q.price_cents ≡ some price
        → dry (price * or_else q.min_years 1) ≡ r
        → Ensures
            (λ v s. IsPriced under (checked q) dry ident now w domain db v s)
            (quote_dry fingerprint sandbox ident now w domain by q
              (price * or_else q.min_years 1)
              r
              db)
    unfolding added
    dry-IsPriced q price (dry_failed e) a o p t = Ensures-err _ _ _
    dry-IsPriced q price (dried d) a o p t = after_or_raise _ _ _ λ cost c.
        after_raise_if _ _ _ λ fine.
          add_operation-IsPriced (checked q) dry
            (new_operation fingerprint sandbox now w domain by q cost) refl refl
            (record {
              q = q;
              price = price;
              d = d;
              answered = refl;
              available = a;
              ordinary = o;
              priced = p;
              tried = t;
              accepted = fine;
              cost = (positive-eq (dry_cost (price * or_else q.min_years 1) d.cost) cost c).0;
              cost_positive =
                  (positive-eq (dry_cost (price * or_else q.min_years 1) d.cost) cost c).1;
              total = refl;
              quoted = refl;
              half_hour = refl;
              unattached = unattached;
              added = refl;
            })

    checked-IsPriced :
        (check : Checked)
        → Ensures
            (λ v s. IsPriced under check dry ident now w domain db v s)
            (quote_checked fingerprint sandbox dry ident now w domain by check db)
    checked-IsPriced (check_failed e) = Ensures-err _ _ _
    checked-IsPriced (checked q) = after_raise_if _ _ _ λ a. after_raise_if _ _ _ λ o.
        after_or_raise _ _ _ λ price p.
          dry-IsPriced q price _ (ground arith) o (positive-eq q.price_cents price p).0 refl

  kept-IsPriced :
      (check : Checked) (dry : ℕ → Dried) (i : ℕ) (row : DomainOperation)
      → last_row (is_current now w domain) db.purchases ≡ some (i, row)
      → IsPriced under check dry ident now w domain db (quote_view i row db) db
  unfolding quote_view
  kept-IsPriced check dry i row e =
      let found = last_row-HasRow (is_current now w domain) db.purchases i row e in
      let ow : row.workspace_id ≡ w = ground arith in
      record {
        owner = ow;
        name = ground arith;
        stored = found.0;
        answer = rw ow refl;
        allowed = allowed;
        outcome = inl (record { in_force = ground arith; same = refl });
      }

  quote_by-IsPriced :
      (check : Checked) (dry : ℕ → Dried) (o : Option (ℕ × DomainOperation))
      → last_row (is_current now w domain) db.purchases ≡ o
      → Ensures
          (λ v s. IsPriced under check dry ident now w domain db v s)
          (quote_by fingerprint sandbox check dry ident now w domain by o db)
  quote_by-IsPriced check dry (some (i, row)) e = Ensures-ok _ _ _ (kept-IsPriced check dry i row e)
  quote_by-IsPriced check dry none e =
      after_raise_when _ _ _ λ free. checked-IsPriced dry (is_none _ free) check

-- A quote that returns shows an operation of the workspace for the domain, which stands among the
-- operations and overlaps no domain of another workspace; it says that a purchase would succeed where
-- the operation's credit is held or the balance covers its total. Either the operation was in force
-- before, and nothing is changed; or the domain was attached to no workspace, the registrar's check
-- finds it available and not premium, its dry run at the price of the least number of years does not
-- fail, and one quote is added, which lasts half an hour and whose total is the dry run's cost, at
-- least one cent, and two dollars for each of these years.
pub quote-IsPriced :
    (fingerprint : ℕ) (sandbox : Bool) (under : ℕ → ℕ → Bool) (check : Checked) (dry : ℕ → Dried)
    (ident now w domain by : ℕ) (db : Db)
    → Ensures
        (λ v s. IsPriced under check dry ident now w domain db v s)
        (quote fingerprint sandbox under check dry ident now w domain by db)
unfolding quote
quote-IsPriced fingerprint sandbox under check dry ident now w domain by db =
    after_raise_when _ _ _ λ allowed. after_gets _ _ (
      quote_by-IsPriced fingerprint sandbox under ident now w domain by db allowed check dry _ refl)
