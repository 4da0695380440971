-- ===== src/Accounts/Invites.antt =====
-- `create_invite`, `invite_for`, `invite_proof`, `invite_proof_ok`, `accept_invite` and `needs_invite`
-- of control/app/auth.py.
use boathouse_cloud.Prelude.{
  ℕ, ◌+◌, ◌*◌, Bool, true, false, not, ◌&&◌, ◌||◌, Option, none, some, ◌++◌, [], ◌∷◌, ◌==◌, ltb,
  same, is_some,
}
use boathouse_cloud.Prelude.Table.{find, first_row, any_row}
use boathouse_cloud.Prelude.Table.Where.{delete_rows, set_rows}
use boathouse_cloud.Accounts.Store.{Auth, User, Invite, has_password, write_password}
use boathouse_cloud.Accounts.Tokens.{Payload, no_fields, Token, Crypto, sign, verify}

-- INVITE_DAYS
abbrev pub invite_days : ℕ
invite_days = 7

abbrev pub is_pending_for : ℕ → ℕ → ℕ → Invite → Bool
is_pending_for w email i v = v.workspace_id == w && (v.email == email && not (is_some v.used))

-- `create_invite`, with the identifier and the hash of the token that it draws.
unfoldable pub create_invite : ℕ → ℕ → ℕ → ℕ → ℕ → Auth → Auth
create_invite now ident hash w email db = record db {
  invites =
      delete_rows (is_pending_for w email) db.invites
      ++ (
        ident,
        record {
          workspace_id = w;
          email = email;
          token_hash = hash;
          expires = now + invite_days * 86400;
          used = none;
        },
      )
        ∷ [];
}

abbrev pub is_live : ℕ → Invite → Bool
is_live now v = not (is_some v.used) && ltb now v.expires

-- `invite_for`, by the hash of the token
unfoldable pub invite_for : ℕ → ℕ → Bool → Auth → Option (ℕ × Invite)
invite_for now hash include_inactive db =
    first_row (λ i v. v.token_hash == hash && (include_inactive || is_live now v)) db.invites

abbrev pub is_proof_of : ℕ → Invite → Option Payload → Bool
is_proof_of i v none = false
is_proof_of i v (some p) =
    same p.invite (some i) && (same p.token (some v.token_hash) && same p.email (some v.email))

abbrev pub is_member : ℕ → ℕ → Auth → Bool
is_member w email db = any_row (λ i u. u.workspace_id == w && u.email == email) db.users

abbrev pub is_unused_for : ℕ → ℕ → Invite → Bool
is_unused_for email i v = v.email == email && not (is_some v.used)

-- The statements after the checks of the transaction.
unfoldable pub initialize : ℕ → ℕ → Option ℕ → Invite → Auth → Auth
initialize now h name v db =
    let written = write_password v.email h name db in
    record written {
      invites = set_rows (is_unused_for v.email) (λ u. record u { used = some now }) db.invites;
    }

abbrev pub initialize_if : Bool → ℕ → ℕ → Option ℕ → Invite → Auth → Bool × Auth
initialize_if false now h name v db = (false, db)
initialize_if true now h name v db = (true, initialize now h name v db)

abbrev pub may_accept : ℕ → Invite → Auth → Bool
may_accept now v db =
    is_live now v && (not (has_password v.email db) && is_member v.workspace_id v.email db)

-- The transaction, with the invitation as it stands there.
abbrev pub accept_live : ℕ → ℕ → Option ℕ → Option Invite → Auth → Bool × Auth
accept_live now h name none db = (false, db)
accept_live now h name (some v) db = initialize_if (may_accept now v db) now h name v db

abbrev pub accept_proven : Bool → ℕ → ℕ → Option ℕ → Option Invite → Auth → Bool × Auth
accept_proven false now h name o db = (false, db)
accept_proven true now h name o db = accept_live now h name o db

module _ (c : Crypto) where
  abbrev pub proof_of : Option (ℕ × Invite) → Option Token
  proof_of none = none
  proof_of (some (i, v)) = some (
      sign c (record no_fields {
        invite = some i;
        token = some v.token_hash;
        email = some v.email;
        exp = some v.expires;
      }))

  -- `invite_proof`
  unfoldable pub invite_proof : ℕ → ℕ → Auth → Option Token
  invite_proof now hash db = proof_of (invite_for now hash false db)

  abbrev pub verified : ℕ → Option Token → Option Payload
  verified now none = none
  verified now (some t) = verify c now t

  -- `invite_proof_ok`
  unfoldable pub invite_proof_ok : ℕ → ℕ → Invite → Option Token → Bool
  invite_proof_ok now i v proof = is_proof_of i v (verified now proof)

  -- `accept_invite`, with the hash of the password.
  unfoldable pub accept_invite :
      ℕ → Option (ℕ × Invite) → ℕ → Option ℕ → Option Token → Auth → Bool × Auth
  accept_invite now none h name proof db = (false, db)
  accept_invite now (some (i, v)) h name proof db =
      accept_proven (invite_proof_ok now i v proof) now h name (find i db.invites) db

-- `needs_invite`
abbrev pub needs_invite : Option User → Auth → Bool
needs_invite none db = false
needs_invite (some u) db = not (has_password u.email db)
