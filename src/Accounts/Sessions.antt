-- ===== src/Accounts/Sessions.antt =====
-- Sessions, project keys and the codes that stand in for them, in control/app/auth.py.
use boathouse_cloud.Prelude.{
  ℕ, ◌+◌, ◌*◌, Bool, true, false, not, ◌&&◌, ◌||◌, Option, none, some, List, ◌++◌, [], ◌∷◌, ◌==◌,
  ltb, same, is_some, if◌then◌else◌,
}
use boathouse_cloud.Prelude.Table.{Table, find, update, first_row, any_row}
use boathouse_cloud.Prelude.Table.Where.{delete_rows}
use boathouse_cloud.Accounts.Store.{Auth, User, Session, ProjectKey, Claim}

-- SESSION_DAYS
abbrev pub session_seconds : ℕ
session_seconds = 365 * 86400

-- INSERT INTO sessions; `create_session`, and `create_platform_session` where `w` is `none`
unfoldable pub create_session : ℕ → ℕ → Option ℕ → ℕ → Auth → Auth
create_session now sid w email db = record db {
  sessions =
      db.sessions
      ++ (sid, record { workspace_id = w; email = email; expires = now + session_seconds }) ∷ [];
}

abbrev pub live_session : ℕ → Option Session → Option Session
live_session now none = none
live_session now (some s) = if ltb now s.expires then some s else none

-- SELECT * FROM users WHERE workspace_id=? AND email=?
abbrev pub user_in : ℕ → ℕ → Table User → Option (ℕ × User)
user_in w email us = first_row (λ i u. u.workspace_id == w && u.email == email) us

-- `workspace_id and s["workspace_id"] != workspace_id`
abbrev pub is_elsewhere : Option ℕ → Option ℕ → Bool
is_elsewhere none home = false
is_elsewhere (some w) home = not (same home (some w))

-- No user belongs to PLATFORM.
abbrev pub home_user : ℕ → Option ℕ → Auth → Option (ℕ × User)
home_user email none db = none
home_user email (some w) db = user_in w email db.users

abbrev pub user_of : Option ℕ → Option Session → Auth → Option (ℕ × User)
user_of asked none db = none
user_of asked (some s) db =
    if is_elsewhere asked s.workspace_id then none else home_user s.email s.workspace_id db

-- `session_user`
unfoldable pub session_user : ℕ → Option ℕ → Option ℕ → Auth → Option (ℕ × User)
session_user now none asked db = none
session_user now (some sid) asked db = user_of asked (live_session now (find sid db.sessions)) db

abbrev pub platform_of : Option Session → Option ℕ
platform_of none = none
platform_of (some s) = if is_some s.workspace_id then none else some s.email

-- `platform_email`
unfoldable pub platform_email : ℕ → Option ℕ → Auth → Option ℕ
platform_email now none db = none
platform_email now (some sid) db = platform_of (live_session now (find sid db.sessions))

-- `delete_session`, `revoke_sessions` and `revoke_all_sessions`
unfoldable pub delete_session : Option ℕ → Auth → Auth
delete_session none db = db
delete_session (some sid) db = record db { sessions = delete_rows (λ i s. i == sid) db.sessions }

unfoldable pub revoke_sessions : ℕ → ℕ → Auth → Auth
revoke_sessions w email db = record db {
  sessions = delete_rows (λ i s. same s.workspace_id (some w) && s.email == email) db.sessions;
}

unfoldable pub revoke_all_sessions : ℕ → Auth → Auth
revoke_all_sessions email db = record db {
  sessions = delete_rows (λ i s. s.email == email) db.sessions;
}

-- CLAIM_TTL
abbrev pub claim_seconds : ℕ
claim_seconds = 15 * 60

-- `create_claim`, with the code that it draws and the encrypted key.
unfoldable pub create_claim : ℕ → ℕ → ℕ → ℕ → ℕ → Auth → Auth
create_claim now code w email key_enc db = record db {
  claims =
      db.claims
      ++ (
        code,
        record {
          workspace_id = w;
          email = email;
          key_enc = key_enc;
          expires = now + claim_seconds;
          used = none;
        },
      )
        ∷ [];
}

abbrev pub has_workspace : ℕ → List ℕ → Bool
has_workspace w [] = false
has_workspace w (v ∷ vs) = v == w || has_workspace w vs

abbrev pub is_redeemable : ℕ → List ℕ → Claim → Bool
is_redeemable now ws l =
    not (is_some l.used) && (ltb now l.expires && has_workspace l.workspace_id ws)

-- What a redeemed code returns.
pub record Redeemed : Type 0 where
  pub workspace_id : ℕ
  pub email : ℕ
  pub key : ℕ

-- A key in force, `k.workspace_id IN (workspace, ACCOUNT)`, of a member of the workspace.
abbrev pub is_key_in : ℕ → ℕ → ℕ → Auth → Bool
is_key_in hash email w db =
    any_row
      (λ i k.
        k.key_hash == hash
        && (k.email == email
            && ((same k.workspace_id (some w) || not (is_some k.workspace_id))
                && any_row (λ j u. u.email == k.email && u.workspace_id == w) db.users)))
      db.project_keys

-- `decrypt` is Fernet's, `digest` SHA-256.
module _ (decrypt : ℕ → ℕ) (digest : ℕ → ℕ) where
  abbrev pub redeemed : Claim → Auth → Option Redeemed
  redeemed l db =
      if is_key_in (digest (decrypt l.key_enc)) l.email l.workspace_id db
      then some (record { workspace_id = l.workspace_id; email = l.email; key = decrypt l.key_enc })
      else none

  -- The row that the UPDATE returns, if it meets one.
  abbrev pub redeem_if : Bool → ℕ → ℕ → Claim → Auth → Option Redeemed × Auth
  redeem_if false now code l db = (none, db)
  redeem_if true now code l db = (
    redeemed l db,
    record db { claims = update code (λ m. record m { used = some now }) db.claims },
  )

  abbrev pub redeem_by : ℕ → ℕ → Option Claim → Auth → Option Redeemed × Auth
  redeem_by now code none db = (none, db)
  redeem_by now code (some l) db = redeem_if (is_redeemable now db.workspaces l) now code l db

  -- `redeem_claim`, on the code as it is normalised
  unfoldable pub redeem_claim : ℕ → ℕ → Auth → Option Redeemed × Auth
  redeem_claim now code db = redeem_by now code (find code db.claims) db

-- `create_project_key`, with the hash of the key that it draws.
unfoldable pub create_project_key : ℕ → Option ℕ → ℕ → ℕ → Auth → Auth
create_project_key ident w email hash db = record db {
  project_keys =
      db.project_keys ++ (ident, record { workspace_id = w; email = email; key_hash = hash }) ∷ [];
}

-- `memberships`: the workspaces of an address in the order in which they were created
abbrev pub first_membership : Bool → ℕ → List ℕ → Table User → Option ℕ
first_membership owner email [] us = none
first_membership owner email (w ∷ ws) us =
    if any_row (λ i u. u.workspace_id == w && (u.email == email && (u.is_owner || not owner))) us
    then some w
    else first_membership owner email ws us

abbrev pub or_first : Option ℕ → Option ℕ → Option ℕ
or_first none o = o
or_first (some w) o = some w

-- `memberships(email)[0]["id"]`: owners first
abbrev pub first_workspace : ℕ → Auth → Option ℕ
first_workspace email db =
    or_first (first_membership true email db.workspaces db.users)
      (first_membership false email db.workspaces db.users)

-- The workspace for which a key answers: its own, or for a person's key the one that is asked for.
abbrev pub key_target : Option ℕ → ℕ → Option ℕ → Auth → Option ℕ
key_target (some home) email none db = some home
key_target (some home) email (some w) db = if w == home then some home else none
key_target none email (some w) db = some w
key_target none email none db = first_workspace email db

abbrev pub person_in : ℕ → Option ℕ → Auth → Option (ℕ × User)
person_in email none db = none
person_in email (some w) db = user_in w email db.users

abbrev pub key_person : Option (ℕ × ProjectKey) → Option ℕ → Auth → Option (ℕ × User)
key_person none asked db = none
key_person (some (i, k)) asked db =
    person_in k.email (key_target k.workspace_id k.email asked db) db

-- `key_row` and `key_user`, by the hash of the bearer
unfoldable pub key_user : ℕ → Option ℕ → Auth → Option (ℕ × User)
key_user hash asked db = key_person (first_row (λ i k. k.key_hash == hash) db.project_keys) asked db
