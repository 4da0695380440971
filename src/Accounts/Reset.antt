-- ===== src/Accounts/Reset.antt =====
-- `create_password_reset`, `credential_stamp`, `password_reset_for` and `reset_password` of
-- control/app/auth.py.
use boathouse_cloud.Prelude.{
  ℕ, ◌+◌, ◌*◌, Bool, true, false, not, ◌&&◌, Option, none, some, ◌==◌, get_or, same, is_some,
  if◌then◌else◌,
}
use boathouse_cloud.Prelude.Table.{find}
use boathouse_cloud.Prelude.Table.Where.{delete_rows, set_rows}
use boathouse_cloud.Accounts.Store.{Auth, stored_hash, write_password}
use boathouse_cloud.Accounts.Tokens.{Payload, no_fields, Token, Crypto, sign, verify, use_token}
use boathouse_cloud.Accounts.Invites.{is_unused_for}

-- RESET_TTL
abbrev pub reset_seconds : ℕ
reset_seconds = 30 * 60

-- The address of a verified recovery token.
abbrev pub reset_of : Option Payload → Option (ℕ × Payload)
reset_of none = none
reset_of (some p) = elim (p.reset) [
  | none ↦ none
  | some email ↦ if is_some p.nonce then some (email, p) else none
]

-- `digest` is SHA-256 of a stored hash, `hash_token` that of a token's text.
module _ (digest : ℕ → ℕ) where
  -- `_token_hash(a["pw_hash"]) if a and a["pw_hash"] else None`
  abbrev pub stamp_of : Option ℕ → Option ℕ
  stamp_of none = none
  stamp_of (some h) = some (digest h)

  -- `credential_stamp`
  abbrev pub credential_stamp : ℕ → Auth → Option ℕ
  credential_stamp email db = stamp_of (stored_hash (find email db.accounts))

  -- A stored password, and the token's stamp is that of it.
  abbrev pub is_current : Option ℕ → Option ℕ → Bool
  is_current none pw = false
  is_current (some h) pw = same pw (some (digest h))

module _ (c : Crypto) (digest : ℕ → ℕ) (hash_token : Token → ℕ) where
  abbrev pub reset_token : ℕ → ℕ → ℕ → Option ℕ → Option Token
  reset_token now nonce email none = none
  reset_token now nonce email (some h) = some (
      sign c (record no_fields {
        reset = some email;
        pw = some (digest h);
        exp = some (now + reset_seconds);
        nonce = some nonce;
      }))

  -- `create_password_reset`, with the nonce that it draws.
  unfoldable pub create_password_reset : ℕ → ℕ → ℕ → Auth → Option Token
  create_password_reset now nonce email db =
      reset_token now nonce email (stored_hash (find email db.accounts))

  abbrev pub pending_reset : Token → Auth → Option (ℕ × Payload) → Option Payload
  pending_reset t db none = none
  pending_reset t db (some (email, p)) =
      if is_current digest (stored_hash (find email db.accounts)) p.pw
        && not (is_some (find (hash_token t) db.used_tokens))
      then some p
      else none

  -- `password_reset_for`
  unfoldable pub password_reset_for : ℕ → Token → Auth → Option Payload
  password_reset_for now t db = pending_reset t db (reset_of (verify c now t))

-- The statements after the checks of `reset_password`.
unfoldable pub recover : ℕ → ℕ → ℕ → ℕ → ℕ → Auth → Auth
unfolding write_password
recover now email h hash exp db =
    let written = write_password email h none db in
    record written {
      used_tokens = (use_token hash exp none db.used_tokens).1;
      sessions = delete_rows (λ i s. s.email == email) db.sessions;
      project_keys = delete_rows (λ i k. k.email == email) db.project_keys;
      claims = delete_rows (λ i l. l.email == email) db.claims;
      invites = set_rows (is_unused_for email) (λ v. record v { used = some now }) db.invites;
    }

-- After the tests of the transaction.
abbrev pub reset_if : Bool → ℕ → ℕ → ℕ → ℕ → ℕ → Auth → Option ℕ × Auth
reset_if false now email h hash exp db = (none, db)
reset_if true now email h hash exp db = (some email, recover now email h hash exp db)

module _ (c : Crypto) (digest : ℕ → ℕ) (hash_token : Token → ℕ) where
  abbrev pub reset_by : ℕ → Token → ℕ → Option (ℕ × Payload) → Auth → Option ℕ × Auth
  reset_by now t h none db = (none, db)
  reset_by now t h (some (email, p)) db =
      reset_if
        (is_current digest (stored_hash (find email db.accounts)) p.pw
          && not (is_some (find (hash_token t) db.used_tokens)))
        now email h (hash_token t) (get_or 0 p.exp) db

  -- `reset_password`, with the hash of the new password.
  unfoldable pub reset_password : ℕ → Token → ℕ → Auth → Option ℕ × Auth
  reset_password now t h db = reset_by now t h (reset_of (verify c now t)) db
