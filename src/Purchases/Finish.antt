-- ===== src/Purchases/Finish.antt =====
-- `_uncertain`, `_release`, `_validate_purchase_result`, `_settle` and `purchase` of
-- control/app/domain_payments.py.
use boathouse_cloud.Prelude.{
  ℕ, Bool, true, false, not, ◌&&◌, ◌||◌, Option, none, some, [], ◌∷◌, ◌++◌, ◌==◌, same, is_some,
  if◌then◌else◌,
}
use boathouse_cloud.Prelude.Int.{pos, ◌+ℤ◌}
use boathouse_cloud.Prelude.Table.{Table, find, update, any_row}
use boathouse_cloud.Prelude.Exec.{
  Run, ok, err, pure, raise, raise_if, raise_when, modify, fetch, atomically, ◌>>=◌, ◌>>◌,
}
use boathouse_cloud.Db.{
  Db, Workspace, DomainOperation, PurchaseState, Attachment, RenewalSetting, Line, Kind, Memo,
  Proof, Code, Error, Action,
}
use boathouse_cloud.Db.Credit.{charge_lines}
use boathouse_cloud.Purchases.Reserve.{
  holds_credit, has_conflict, operation, domain_ref, release_ref, insert_line, reserve,
}

abbrev pub set_purchase : ℕ → (DomainOperation → DomainOperation) → Db → Db
set_purchase oid f db = record db { purchases = update oid f db.purchases }

-- UPDATE … SET state='uncertain',lease_until=0 WHERE id=? AND state='processing'
abbrev pub to_uncertain : DomainOperation → DomainOperation
to_uncertain o = elim (o.state) [
  | PurchaseState.processing ↦ record o { state = PurchaseState.uncertain; lease_until = 0 }
  | _ ↦ o
]

unfoldable pub mark_uncertain : ℕ → Action (Unit {0})
mark_uncertain oid = modify (set_purchase oid to_uncertain)

abbrev pub release_line : ℕ → ℕ → DomainOperation → Workspace → Line
release_line now oid row ws = record {
  workspace_id = row.workspace_id;
  ts = now;
  kind = Kind.purchase_release;
  amount_cents = pos row.total_cents;
  balance_after = ws.balance_cents +ℤ pos row.total_cents;
  memo = Memo.plain;
  ref = some (release_ref oid);
}

abbrev pub to_failed : DomainOperation → DomainOperation
to_failed o = record o { state = PurchaseState.failed; lease_until = 0 }

abbrev pub release_state : ℕ → ℕ → DomainOperation → PurchaseState → Action (Unit {0})
release_state now oid row PurchaseState.failed = pure tt
release_state now oid row PurchaseState.purchased = pure tt
release_state now oid row _ = do
  ws ← fetch (λ db. find row.workspace_id db.workspaces) Error.crash
  insert_line (release_line now oid row ws)
  modify (set_purchase oid to_failed)

unfoldable pub release_body : ℕ → ℕ → DomainOperation → Action (Unit {0})
release_body now oid row = do
  current ← operation row.workspace_id oid row.domain
  release_state now oid row current.state

-- `_release`
unfoldable pub release : ℕ → ℕ → DomainOperation → Action (Unit {0})
unfolding release_body
release now oid row = atomically (release_body now oid row)

-- `_validate_purchase_result`; `cost` and `domain` are `none` where they are of another type.
abbrev pub is_proof : ℕ → ℕ → Proof → Bool
is_proof domain registrar_cents p =
    p.success
    && (same p.domain (some domain)
        && (is_some p.order_id
            && (not p.dry_run && (not p.has_cost || same p.cost (some registrar_cents)))))

abbrev pub uncertain_error : Code → Error
uncertain_error c = Error.registrar (record { code = c; uncertain = true; replayed = false })

abbrev pub is_first : ℕ → Table Attachment → Bool
is_first w ds = not (any_row (λ d a. a.workspace_id == w && a.active) ds)

abbrev pub attach_domain : DomainOperation → Proof → Db → Db
attach_domain row p db = record db {
  domains =
      db.domains
      ++ (
        row.domain,
        record {
          workspace_id = row.workspace_id;
          active = true;
          is_primary = is_first row.workspace_id db.domains;
          cost_cents = row.registrar_cents;
          order_id = p.order_id;
        },
      )
        ∷ [];
  allocations = db.allocations ++ (row.domain, row.workspace_id) ∷ [];
}

-- INSERT OR IGNORE INTO domain_renewal_settings
abbrev pub with_setting :
    DomainOperation → Option RenewalSetting → Table RenewalSetting → Table RenewalSetting
with_setting row (some s) t = t
with_setting row none t =
    t
    ++ (
      row.domain,
      record {
        workspace_id = row.workspace_id;
        enabled = true;
        max_cost_cents = row.renewal_cents;
        expires_at = 0;
        managed = false;
        provider_fingerprint = row.provider_fingerprint;
        sandbox = row.sandbox;
      },
    )
      ∷ []

abbrev pub to_purchased : DomainOperation → DomainOperation
to_purchased o = record o { state = PurchaseState.purchased; lease_until = 0 }

-- What `registrar.buy` returns, or the exception that it raises.
pub data Answer : Type 0 where
  answer : Proof → Answer
  raised : Error → Answer

-- The `except` clauses: only a certain rejection, of a first try or replayed, releases the credit.
abbrev pub recovered :
    ℕ → ℕ → DomainOperation → Bool → Run Db Error (Unit {0}) → Run Db Error (Unit {0})
recovered now oid row retrying (ok a db) = ok a db
recovered now oid row retrying (err (Error.registrar e) db) =
    (if e.uncertain || (retrying && not e.replayed)
        then mark_uncertain oid >> raise (Error.http 503 Code.purchase_uncertain)
        else release now oid row >> raise (Error.http 422 e.code))
      db
recovered now oid row retrying (err (Error.http st c) db) = err (Error.http st c) db
recovered now oid row retrying (err e db) =
    (mark_uncertain oid >> raise (Error.http 503 Code.purchase_uncertain)) db

-- the UNIQUE index `domain_operations_active`
abbrev pub is_active_elsewhere : ℕ → ℕ → Db → Bool
is_active_elsewhere oid domain db =
    any_row (λ i o. not (i == oid) && (o.domain == domain && holds_credit o.state)) db.purchases

abbrev pub is_purchased : PurchaseState → Bool
is_purchased PurchaseState.purchased = true
is_purchased _ = false

module _ (under : ℕ → ℕ → Bool) where
  abbrev pub settle_state : ℕ → DomainOperation → Proof → PurchaseState → Action (Unit {0})
  settle_state oid row p PurchaseState.purchased = pure tt
  settle_state oid row p _ = do
    raise_when (has_conflict under row.workspace_id row.domain)
        (uncertain_error Code.namespace_conflict)
    raise_when (λ db. is_some (find row.domain db.domains)) Error.crash
    raise_when (λ db. is_some (find row.domain db.allocations)) Error.crash
    modify (attach_domain row p)
    modify
        (λ db. record db { settings = with_setting row (find row.domain db.settings) db.settings })
    modify (λ db. record db { ledger = charge_lines (domain_ref oid) db.ledger })
    raise_when (is_active_elsewhere oid row.domain) Error.crash
    modify (set_purchase oid to_purchased)

  unfoldable pub settle_body : ℕ → DomainOperation → Proof → Action (Unit {0})
  settle_body oid row p = do
    current ← operation row.workspace_id oid row.domain
    settle_state oid row p current.state

  -- `_settle`: the proof is stored first, outside the transaction.
  unfoldable pub settle : ℕ → DomainOperation → Proof → Action (Unit {0})
  unfolding settle_body
  settle oid row p = do
    modify (set_purchase oid (λ o. record o { provider_result = some p }))
    raise_if (not (is_proof row.domain row.registrar_cents p)) (uncertain_error Code.proof_invalid)
    atomically (settle_body oid row p)

  -- The body of the `try` in `purchase`, with the registrar's answer.
  abbrev pub conclude : ℕ → DomainOperation → Proof → Action (Unit {0})
  conclude oid row p =
      if p.pending
      then mark_uncertain oid >> raise (Error.http 409 Code.purchase_pending)
      else settle oid row p

  abbrev pub answered : ℕ → DomainOperation → Option Proof → Answer → Action (Unit {0})
  answered oid row (some p) a = conclude oid row p
  answered oid row none (answer p) = conclude oid row p
  answered oid row none (raised e) = raise e

  unfoldable pub buy_reserved : ℕ → ℕ → DomainOperation → Bool → Answer → Action (Unit {0})
  unfolding settle release mark_uncertain
  buy_reserved now oid row retrying a db =
      recovered now oid row retrying (answered oid row row.provider_result a db)

  -- `purchase`: `a` is what the registrar answers if it is asked.
  unfoldable pub purchase : ℕ → Bool → ℕ → ℕ → ℕ → ℕ → Option ℕ → Answer → Action DomainOperation
  unfolding buy_reserved
  purchase fingerprint sandbox now w oid domain maximum a = do
    reserved ← reserve under fingerprint sandbox now w oid domain maximum
    if is_purchased (reserved.0).state
        then pure reserved.0
        else do buy_reserved now oid reserved.0 reserved.1 a; operation w oid domain
