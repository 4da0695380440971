-- ===== src/Purchases/Reserve.antt =====
-- `require_namespace`, `_operation` and `_reserve` of control/app/domain_payments.py.
use boathouse_cloud.Prelude.{
  ℕ, ◌+◌, ◌*◌, Bool, true, false, not, ◌&&◌, ◌||◌, Option, none, some, ◌==◌, ltb, leb, is_some,
  get_or, if◌then◌else◌,
}
use boathouse_cloud.Prelude.Int.{pos, ◌-ℤ◌, ltb_ℤ, neg}
use boathouse_cloud.Prelude.Table.{find, update, any_row}
use boathouse_cloud.Prelude.Exec.{
  pure, raise, raise_if, raise_when, modify, fetch, atomically, ◌>>=◌, ◌>>◌,
}
use boathouse_cloud.Db.{
  Db, Workspace, DomainOperation, PurchaseState, Line, Kind, Memo, Ref, Prefix, Code, Error, Action,
}
use boathouse_cloud.Db.Ledger.{write_line, clashes}

-- REPLAY_SECONDS and LEASE_SECONDS
abbrev pub replay_seconds : ℕ
replay_seconds = 23 * 3600

abbrev pub lease_seconds : ℕ
lease_seconds = 360

-- `state IN ('processing','uncertain','purchased')`: the credit is reserved or spent
abbrev pub holds_credit : PurchaseState → Bool
holds_credit PurchaseState.processing = true
holds_credit PurchaseState.uncertain = true
holds_credit PurchaseState.purchased = true
holds_credit _ = false

abbrev pub domain_ref : ℕ → Ref
domain_ref oid = record { prefix = Prefix.domain; name = oid; day = 0 }

abbrev pub release_ref : ℕ → Ref
release_ref oid = record { prefix = Prefix.domain_release; name = oid; day = 0 }

module _ (under : ℕ → ℕ → Bool) where
  abbrev pub overlaps : ℕ → ℕ → Bool
  overlaps a b = a == b || (under a b || under b a)

  -- the SELECT of `require_namespace`
  unfoldable pub has_conflict : ℕ → ℕ → Db → Bool
  has_conflict w domain db =
      any_row (λ d a. a.active && (not (a.workspace_id == w) && overlaps d domain)) db.domains
      || (any_row (λ d v. not (v == w) && overlaps d domain) db.allocations
          || any_row
              (λ i o.
                holds_credit o.state && (not (o.workspace_id == w) && overlaps o.domain domain))
              db.purchases)

  abbrev pub require_namespace : ℕ → ℕ → Action (Unit {0})
  require_namespace w domain =
      raise_when (has_conflict w domain) (Error.http 409 Code.namespace_conflict)

-- `_operation`
abbrev pub belongs : ℕ → ℕ → Option DomainOperation → Option DomainOperation
belongs w domain none = none
belongs w domain (some o) = if o.workspace_id == w && o.domain == domain then some o else none

abbrev pub operation : ℕ → ℕ → ℕ → Action DomainOperation
operation w oid domain =
    fetch (λ db. belongs w domain (find oid db.purchases)) (Error.http 404 Code.quote_not_found)

abbrev pub reserve_line : ℕ → ℕ → DomainOperation → Workspace → Line
reserve_line now oid row ws = record {
  workspace_id = row.workspace_id;
  ts = now;
  kind = Kind.pending_purchase;
  amount_cents = neg row.total_cents;
  balance_after = ws.balance_cents -ℤ pos row.total_cents;
  memo = Memo.plain;
  ref = some (domain_ref oid);
}

-- INSERT INTO ledger beside its UPDATE of the balance; a used reference violates a constraint
abbrev pub insert_line : Line → Action (Unit {0})
insert_line l = do raise_when (λ db. clashes l.ref db.ledger) Error.crash; modify (write_line l)

-- UPDATE … SET state='processing',started=COALESCE(started,?),lease_until=?
abbrev pub begin_processing : ℕ → DomainOperation → DomainOperation
begin_processing now o = record o {
  state = PurchaseState.processing;
  started = some (get_or now o.started);
  lease_until = now + lease_seconds;
}

abbrev pub mark_processing : ℕ → ℕ → Db → Db
mark_processing now oid db = record db {
  purchases = update oid (begin_processing now) db.purchases;
}

-- The branch of a retried operation, whose credit is reserved already.
abbrev pub check_retry : ℕ → DomainOperation → Action (Unit {0})
check_retry now row = do
  raise_if (not (is_some row.provider_result) && leb (get_or 0 row.started + replay_seconds) now)
      (Error.http 409 Code.reconciliation_required)
  raise_if (ltb now row.lease_until) (Error.http 409 Code.purchase_pending)

-- The branch of a fresh quote: it reserves its total.
unfoldable pub reserve_credit : ℕ → ℕ → DomainOperation → Action (Unit {0})
reserve_credit now oid row = do
  raise_if (leb row.expires now) (Error.http 409 Code.quote_expired)
  raise_when (λ db. is_some (find row.domain db.domains)) (Error.http 409 Code.attached)
  raise_when (λ db. is_some (find row.domain db.allocations)) (Error.http 409 Code.allocated)
  raise_when (λ db. any_row (λ i o. o.domain == row.domain && holds_credit o.state) db.purchases)
      (Error.http 409 Code.purchase_pending)
  ws ← fetch (λ db. find row.workspace_id db.workspaces) Error.crash
  raise_if (ltb_ℤ ws.balance_cents (pos row.total_cents)) (Error.http 402 Code.insufficient_funds)
  insert_line (reserve_line now oid row ws)

abbrev pub is_retry : PurchaseState → Bool
is_retry PurchaseState.processing = true
is_retry PurchaseState.uncertain = true
is_retry _ = false

abbrev pub other_registrar : ℕ → Bool → DomainOperation → Bool
other_registrar fingerprint sandbox row =
    not (row.provider_fingerprint == fingerprint)
    || (if sandbox then not row.sandbox else row.sandbox)

abbrev pub refuse_failed : PurchaseState → Action (Unit {0})
refuse_failed PurchaseState.failed = raise (Error.http 409 Code.purchase_failed)
refuse_failed _ = pure tt

module _ (under : ℕ → ℕ → Bool) (fingerprint : ℕ) (sandbox : Bool) where
  -- What follows the test for `purchased`: the row as it is after the reservation, with the mark
  -- `retrying_uncertain`.
  unfoldable pub reserve_open : ℕ → ℕ → ℕ → ℕ → DomainOperation → Action (DomainOperation × Bool)
  reserve_open now w oid domain row = do
    raise_if (other_registrar fingerprint sandbox row) (Error.http 409 Code.registrar_changed)
    refuse_failed row.state
    if is_retry row.state then check_retry now row else reserve_credit now oid row
    modify (mark_processing now oid)
    updated ← operation w oid domain
    pure (updated, is_retry row.state)

  abbrev pub reserve_state :
      ℕ → ℕ → ℕ → ℕ → DomainOperation → PurchaseState → Action (DomainOperation × Bool)
  reserve_state now w oid domain row PurchaseState.purchased = pure (row, false)
  reserve_state now w oid domain row _ = reserve_open now w oid domain row

  unfoldable pub reserve_body : ℕ → ℕ → ℕ → ℕ → ℕ → Action (DomainOperation × Bool)
  reserve_body now w oid domain maximum = do
    row ← operation w oid domain
    require_namespace under w domain
    raise_if (ltb maximum row.total_cents) (Error.http 409 Code.price_limit)
    reserve_state now w oid domain row row.state

  -- `_reserve`; `none` is a maximum that is no integer number of cents.
  unfoldable pub reserve : ℕ → ℕ → ℕ → ℕ → Option ℕ → Action (DomainOperation × Bool)
  unfolding reserve_body reserve_open reserve_credit has_conflict
  reserve now w oid domain none = raise (Error.http 422 Code.bad_amount)
  reserve now w oid domain (some maximum) = do
    raise_if (leb maximum 0) (Error.http 422 Code.bad_amount)
    atomically (reserve_body now w oid domain maximum)
