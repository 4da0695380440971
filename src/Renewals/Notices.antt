-- ===== src/Renewals/Notices.antt =====
-- `_owners`, `_allocation`, `_notice`, `flush_notices`, `_link` and `_problem` of
-- control/app/domain_renewals.py.
use boathouse_cloud.Prelude.{
  ℕ, ◌+◌, ◌*◌, ◌/◌, Bool, true, false, not, ◌&&◌, ◌||◌, Option, none, some, List, [], ◌∷◌, ◌++◌,
  ◌==◌, leb, same, is_some, if◌then◌else◌,
}
use boathouse_cloud.Prelude.Table.{find}
use boathouse_cloud.Prelude.Exec.{raise_if, raise_when, modify, fetch, ◌>>=◌, ◌>>◌}
use boathouse_cloud.Db.{
  Db, Workspace, Notice, NoticeKey, KeyHead, notice_key_eq, Code, Error, Action,
}

abbrev pub day_seconds : ℕ
day_seconds = 86400

-- SELECT email FROM users WHERE workspace_id=? AND role='owner'
abbrev pub owners_of : ℕ → List (ℕ × ℕ) → List ℕ
owners_of w [] = []
owners_of w ((v, email) ∷ us) = if v == w then email ∷ owners_of w us else owners_of w us

-- `n['email'] in _owners(c, wid)`; no row has NULL for its workspace
abbrev pub is_owner : Option ℕ → ℕ → List (ℕ × ℕ) → Bool
is_owner none email us = false
is_owner (some w) email [] = false
is_owner (some w) email ((v, e) ∷ us) = (v == w && e == email) || is_owner (some w) email us

-- `_allocation`; `platform` tests for the platform's domain and those under it.
unfoldable pub allocation : (ℕ → Bool) → ℕ → ℕ → Action (Unit {0})
allocation platform w domain = do
  raise_if (platform domain) (Error.http 404 Code.not_found)
  raise_when (λ db. not (same (find domain db.allocations) (some w)))
      (Error.http 404 Code.not_found)

abbrev pub has_notice : NoticeKey → ℕ → List Notice → Bool
has_notice k email [] = false
has_notice k email (n ∷ ns) =
    (notice_key_eq n.notice_key k && n.email == email) || has_notice k email ns

-- INSERT OR IGNORE INTO domain_renewal_notices, for one recipient
abbrev pub add_notice : NoticeKey → Option ℕ → Bool → ℕ → List Notice → List Notice
add_notice k w is_host email ns =
    if has_notice k email ns
    then ns
    else ns
      ++ (record {
        notice_key = k;
        email = email;
        workspace_id = w;
        is_host = is_host;
        sent_at = none;
        lease_until = 0;
      })
        ∷ []

abbrev pub add_notices : NoticeKey → Option ℕ → Bool → List ℕ → List Notice → List Notice
add_notices k w is_host [] ns = ns
add_notices k w is_host (e ∷ es) ns = add_notices k w is_host es (add_notice k w is_host e ns)

-- `_notice` without `host`
unfoldable pub notify : NoticeKey → ℕ → Db → Db
notify k w db = record db {
  notices = add_notices k (some w) false (owners_of w db.owners) db.notices;
}

abbrev pub recipients : Option ℕ → List (ℕ × ℕ) → List ℕ
recipients none us = []
recipients (some h) us = owners_of h us

-- UPDATE … WHERE notice_key=? AND email=?
abbrev pub set_notice : NoticeKey → ℕ → (Notice → Notice) → List Notice → List Notice
set_notice k email f [] = []
set_notice k email f (n ∷ ns) =
    (if notice_key_eq n.notice_key k && n.email == email then f n else n) ∷ set_notice k email f ns

abbrev pub is_due : ℕ → Notice → Bool
is_due now n = not (is_some n.sent_at) && leb n.lease_until now

abbrev pub due_notices : ℕ → List Notice → List Notice
due_notices now [] = []
due_notices now (n ∷ ns) = if is_due now n then n ∷ due_notices now ns else due_notices now ns

-- `rowcount` of the UPDATE that leases a notice
abbrev pub can_lease : ℕ → NoticeKey → ℕ → List Notice → Bool
can_lease now k email [] = false
can_lease now k email (n ∷ ns) =
    (notice_key_eq n.notice_key k && (n.email == email && is_due now n)) || can_lease now k email ns

abbrev pub lease_notice : ℕ → Notice → Notice
lease_notice now n = if is_due now n then record n { lease_until = now + 300 } else n

abbrev pub note_sent : ℕ → Bool → Notice → Notice
note_sent now true n = record n { sent_at = some now; lease_until = 0 }
note_sent now false n = record n { sent_at = none; lease_until = now + 3600 }

-- `host` is the row of `workspaces` whose slug is HOST_WORKSPACE.
module _ (host : Option ℕ) where
  -- `_notice` with `host=True`
  unfoldable pub notify_host : NoticeKey → Option ℕ → Db → Db
  notify_host k w db = record db {
    notices = add_notices k w true (recipients host db.owners) db.notices;
  }

  abbrev pub host_or : Option ℕ → Option ℕ → Option ℕ
  host_or none w = w
  host_or (some h) w = some h

  abbrev pub addressee : Notice → Option ℕ
  addressee n = if n.is_host then host_or host n.workspace_id else n.workspace_id

  -- `mail` is `mail.send`: whether the message went out, false where it raises.
  module _ (mail : ℕ → NoticeKey → Bool) (now : ℕ) where
    -- After the lease: false for `continue`.
    abbrev pub send_by : Bool → Notice → Db → Db × List Notice
    send_by false n db = (db, [])
    send_by true n db = (
      record db {
        notices =
            set_notice n.notice_key n.email (note_sent now (mail n.email n.notice_key)) db.notices;
      },
      n ∷ [],
    )

    -- One round of the loop, with what is handed to `mail.send`.
    unfoldable pub deliver : Notice → Db → Db × List Notice
    deliver n db =
        send_by
          (can_lease now n.notice_key n.email db.notices
            && is_owner (addressee n) n.email db.owners)
          n (record db { notices = set_notice n.notice_key n.email (lease_notice now) db.notices })

    unfoldable pub deliver_all : List Notice → Db → Db × List Notice
    deliver_all [] db = (db, [])
    deliver_all (n ∷ ns) db =
        let (after, sent) = deliver n db in
        let (last, more) = deliver_all ns after in (last, sent ++ more)

    unfoldable pub flush_notices : Db → Db × List Notice
    unfolding deliver_all
    flush_notices db = deliver_all (due_notices now db.notices) db

-- `_link`: the slug of a missing row is an exception
abbrev pub link : ℕ → Action Workspace
link w = fetch (λ db. find w db.workspaces) Error.crash

abbrev pub problem_key : KeyHead → ℕ → ℕ → ℕ → NoticeKey
problem_key head now domain digest = record {
  head = head;
  name = domain;
  first = now / (7 * day_seconds);
  second = digest;
}

-- `_problem`; `digest` is that of the message.
unfoldable pub problem : Option ℕ → ℕ → ℕ → ℕ → ℕ → Action (Unit {0})
problem host now domain w digest = do
  _ ← link w
  modify (notify (problem_key KeyHead.problem now domain digest) w)
  modify (notify_host host (problem_key KeyHead.host_problem now domain digest) (some w))
