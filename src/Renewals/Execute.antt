-- ===== src/Renewals/Execute.antt =====
-- `_settle`, `_release` and `execute` of control/app/domain_renewals.py.
use boathouse_cloud.Prelude.{
  ℕ, Bool, true, false, not, ◌&&◌, ◌||◌, Option, none, some, leb, if◌then◌else◌,
}
use boathouse_cloud.Prelude.Int.{pos, ◌+ℤ◌}
use boathouse_cloud.Prelude.Table.{find}
use boathouse_cloud.Prelude.Exec.{
  Run, ok, err, pure, raise, or_raise, raise_if, modify, fetch, atomically, ◌>>=◌, ◌>>◌,
}
use boathouse_cloud.Db.{
  Db, Workspace, Renewal, RenewalSetting, RenewalState, KeyHead, Proof, Line, Kind, Memo, Ref,
  Prefix, Code, Error, Action,
}
use boathouse_cloud.Db.Credit.{charge_lines}
use boathouse_cloud.Purchases.Reserve.{insert_line}
use boathouse_cloud.Purchases.Finish.{is_proof, uncertain_error, Answer, answer, raised}
use boathouse_cloud.Renewals.Notices.{allocation, link, notify}
use boathouse_cloud.Renewals.Policy.{is_submitted, registrar_error, set_setting}
use boathouse_cloud.Renewals.Plan.{set_renewal}
use boathouse_cloud.Renewals.Reserve.{renewal_ref, reserve_renewal}

abbrev pub renewal_release_ref : ℕ → Ref
renewal_release_ref oid = record { prefix = Prefix.renewal_release; name = oid; day = 0 }

abbrev pub refund_line : ℕ → ℕ → Renewal → Workspace → Line
refund_line now oid row ws = record {
  workspace_id = row.workspace_id;
  ts = now;
  kind = Kind.renewal_release;
  amount_cents = pos row.total_cents;
  balance_after = ws.balance_cents +ℤ pos row.total_cents;
  memo = Memo.plain;
  ref = some (renewal_release_ref oid);
}

abbrev pub to_rejected : Renewal → Renewal
to_rejected r = record r { state = RenewalState.failed; lease_until = 0 }

abbrev pub refund_by : ℕ → ℕ → Renewal → Bool → Action (Unit {0})
refund_by now oid row false = pure tt
refund_by now oid row true = do
  ws ← fetch (λ db. find row.workspace_id db.workspaces) Error.crash
  insert_line (refund_line now oid row ws)
  modify (set_renewal oid to_rejected)

unfoldable pub refund_body : ℕ → ℕ → Renewal → Action (Unit {0})
refund_body now oid row = do
  current ← fetch (λ db. find oid db.renewals) Error.crash
  refund_by now oid row (is_submitted current.state)

-- `_release`
unfoldable pub refund : ℕ → ℕ → Renewal → Action (Unit {0})
unfolding refund_body
refund now oid row = atomically (refund_body now oid row)

-- UPDATE … SET state='uncertain',lease_until=0 WHERE id=? AND state='processing'
abbrev pub to_unclear : Renewal → Renewal
to_unclear r = elim (r.state) [
  | RenewalState.processing ↦ record r { state = RenewalState.uncertain; lease_until = 0 }
  | _ ↦ r
]

unfoldable pub mark_unclear : ℕ → Action (Unit {0})
mark_unclear oid = modify (set_renewal oid to_unclear)

abbrev pub to_renewed : Renewal → Renewal
to_renewed r = record r { state = RenewalState.renewed; lease_until = 0 }

abbrev pub extended : ℕ → RenewalSetting → RenewalSetting
extended expiry s = record s { expires_at = expiry }

abbrev pub is_renewed : RenewalState → Bool
is_renewed RenewalState.renewed = true
is_renewed _ = false

abbrev pub send_receipt : ℕ → Renewal → Bool → Action (Unit {0})
send_receipt oid row false = pure tt
send_receipt oid row true = do
  _ ← link row.workspace_id
  modify (
      notify (record { head = KeyHead.receipt; name = oid; first = 0; second = 0 })
        row.workspace_id)

-- The exception of a call without a result, where it is a certain rejection.
abbrev pub is_rejected : Bool → Error → Bool
is_rejected retrying (Error.registrar e) = not e.uncertain && (not retrying || e.replayed)
is_rejected retrying _ = false

-- `raise` at the end of the `except` clause
abbrev pub unclear_after : ℕ → Run Db Error (Unit {0}) → Run Db Error (Unit {0})
unclear_after oid (ok a db) = ok a db
unclear_after oid (err e db) = (mark_unclear oid >> raise e) db

module _ (platform : ℕ → Bool) where
  -- True where it is settled now, false where it was before.
  abbrev pub settle_open : ℕ → Renewal → ℕ → Bool → Action Bool
  settle_open oid row expiry true = pure false
  settle_open oid row expiry false = do
    allocation platform row.workspace_id row.domain
    modify (λ db. record db { ledger = charge_lines (renewal_ref oid) db.ledger })
    modify (set_renewal oid to_renewed)
    modify (set_setting row.domain (extended expiry))
    pure true

  unfoldable pub settle_renewal_body : ℕ → Renewal → ℕ → Action Bool
  settle_renewal_body oid row expiry = do
    current ← fetch (λ db. find oid db.renewals) Error.crash
    settle_open oid row expiry (is_renewed current.state)

  -- `_settle`: the proof is stored first, outside the transaction.
  unfoldable pub settle_renewal : ℕ → Renewal → Proof → Action (Unit {0})
  unfolding settle_renewal_body
  settle_renewal oid row p = do
    modify (set_renewal oid (λ r. record r { provider_result = some p }))
    raise_if (not (is_proof row.domain row.registrar_cents p)) (uncertain_error Code.proof_invalid)
    expiry ← or_raise p.expiration (registrar_error Code.bad_expiry)
    raise_if (leb expiry row.expires_at) (uncertain_error Code.bad_renewal_proof)
    settled ← atomically (settle_renewal_body oid row expiry)
    send_receipt oid row settled

  abbrev pub conclude_renewal : ℕ → Renewal → Proof → Action (Unit {0})
  conclude_renewal oid row p =
      if p.pending then raise (uncertain_error Code.renewal_pending) else settle_renewal oid row p

  -- The `try` statement, by the stored result and by what the registrar answers if it is asked.
  unfoldable pub send_renewal : ℕ → ℕ → Renewal → Bool → Option Proof → Answer → Action (Unit {0})
  unfolding settle_renewal refund mark_unclear
  send_renewal now oid row retrying (some p) a db =
      unclear_after oid (conclude_renewal oid row p db)
  send_renewal now oid row retrying none (answer p) db =
      unclear_after oid (conclude_renewal oid row p db)
  send_renewal now oid row retrying none (raised e) db =
      (if is_rejected retrying e
          then refund now oid row >> raise e
          else mark_unclear oid >> raise e)
        db

  abbrev pub send_reserved : ℕ → ℕ → Answer → Option (Renewal × Bool) → Action (Unit {0})
  send_reserved now oid a none = pure tt
  send_reserved now oid a (some (row, retrying)) =
      send_renewal now oid row retrying row.provider_result a

  -- `execute`
  unfoldable pub execute : ℕ → Bool → ℕ → ℕ → Answer → Action (Unit {0})
  unfolding send_renewal
  execute fingerprint sandbox now oid a = do
    reserved ← reserve_renewal platform fingerprint sandbox now oid
    send_reserved now oid a reserved
