-- ===== src/Accounts/Store.antt =====
-- The tables that control/app/auth.py keeps, and its statements on passwords. An address is a number
-- that stands for its text in lower case; a password's hash is one.
use boathouse_cloud.Prelude.{
  ℕ, Bool, true, false, ◌&&◌, ◌||◌, Option, none, some, List, ◌++◌, [], ◌∷◌, ◌==◌, is_some,
  if◌then◌else◌,
}
use boathouse_cloud.Prelude.Table.{Table, find, update, any_row}
use boathouse_cloud.Prelude.Table.Where.{set_rows}

pub record User : Type 0 where
  pub workspace_id : ℕ
  pub email : ℕ
  pub name : Option ℕ
  pub is_owner : Bool
  pub pw_hash : Option ℕ

-- A row of `accounts`, under its address.
pub record Account : Type 0 where
  pub pw_hash : Option ℕ
  pub name : Option ℕ

pub record Invite : Type 0 where
  pub workspace_id : ℕ
  pub email : ℕ
  pub token_hash : ℕ
  pub expires : ℕ
  pub used : Option ℕ

-- `workspace_id` is `none` for PLATFORM.
pub record Session : Type 0 where
  pub workspace_id : Option ℕ
  pub email : ℕ
  pub expires : ℕ

-- `workspace_id` is `none` for ACCOUNT, the key of a person.
pub record ProjectKey : Type 0 where
  pub workspace_id : Option ℕ
  pub email : ℕ
  pub key_hash : ℕ

-- A row of `claims`, under its code.
pub record Claim : Type 0 where
  pub workspace_id : ℕ
  pub email : ℕ
  pub key_enc : ℕ
  pub expires : ℕ
  pub used : Option ℕ

-- `used_tokens` has the expiry of a token under its hash, `workspaces` the identifiers in the order
-- in which they were created.
pub record Auth : Type 0 where
  pub workspaces : List ℕ
  pub users : Table User
  pub accounts : Table Account
  pub invites : Table Invite
  pub used_tokens : Table ℕ
  pub sessions : Table Session
  pub project_keys : Table ProjectKey
  pub claims : Table Claim

-- `_has_password`
unfoldable pub has_password : ℕ → Auth → Bool
has_password email db =
    any_row (λ e a. e == email && is_some a.pw_hash) db.accounts
    || any_row (λ i u. u.email == email && is_some u.pw_hash) db.users

-- COALESCE(first, second)
abbrev pub coalesce : Option ℕ → Option ℕ → Option ℕ
coalesce none o = o
coalesce (some n) o = some n

abbrev pub upsert : ℕ → ℕ → Option ℕ → Option Account → Table Account → Table Account
upsert email h name none t = t ++ (email, record { pw_hash = some h; name = name }) ∷ []
upsert email h name (some a) t =
    update email (λ b. record { pw_hash = some h; name = coalesce name b.name }) t

-- `_write_password`
unfoldable pub write_password : ℕ → ℕ → Option ℕ → Auth → Auth
write_password email h name db = record db {
  accounts = upsert email h name (find email db.accounts) db.accounts;
  users =
      set_rows (λ i u. u.email == email)
        (λ u. record u { pw_hash = some h; name = coalesce name u.name }) db.users;
}

abbrev pub stored_hash : Option Account → Option ℕ
stored_hash none = none
stored_hash (some a) = a.pw_hash

abbrev pub promoted : ℕ → ℕ → Option User → Auth → Bool × Auth
promoted email h none db = (false, db)
promoted email h (some u) db = (true, write_password email h u.name db)

-- `check_password` and `hash_password`: `matches` is scrypt, and a new hash is an argument.
module _ (matches : ℕ → ℕ → Bool) where
  abbrev pub hash_matches : ℕ → Option ℕ → Bool
  hash_matches password none = false
  hash_matches password (some h) = matches password h

  -- the first row with a password that matches
  abbrev pub legacy_login : ℕ → ℕ → Table User → Option User
  legacy_login email password [] = none
  legacy_login email password ((i, u) ∷ us) =
      if u.email == email && hash_matches password u.pw_hash
      then some u
      else legacy_login email password us

  abbrev pub login_by : ℕ → ℕ → ℕ → Option ℕ → Auth → Bool × Auth
  login_by email password h (some stored) db = (matches password stored, db)
  login_by email password h none db = promoted email h (legacy_login email password db.users) db

  -- `check_login`, with the hash that a promotion stores.
  unfoldable pub check_login : ℕ → ℕ → ℕ → Auth → Bool × Auth
  unfolding write_password
  check_login email password h db =
      login_by email password h (stored_hash (find email db.accounts)) db
