-- ===== src/Accounts/Evicted.antt =====
-- Recovery evicts whoever had access, and a recovery token works once.
use boathouse_cloud.Prelude.{
  ℕ, ◌≡◌, refl, subst, Bool, true, false, not, ◌&&◌, Option, none, some, arith, is_some, ◌==◌,
  get_or,
}
use boathouse_cloud.Prelude.Table.{Table, find, any_row, find-append}
use boathouse_cloud.Prelude.Table.Where.{none_deleted, none_set}
use boathouse_cloud.Accounts.Store.{Auth, stored_hash}
use boathouse_cloud.Accounts.Tokens.{Payload, Token, Crypto, use_token}
use boathouse_cloud.Accounts.Invites.{is_unused_for}
use boathouse_cloud.Accounts.Reset.{is_current, recover, reset_if, reset_by, reset_password}
use boathouse_cloud.Accounts.Passwords.{stored_hash-write_password}

-- Nobody has access by what was given out before, and the account has the new password.
pub record IsEvicted (email h : ℕ) (db : Auth) : Type 0 where
  pub sessions : any_row (λ i s. s.email == email) db.sessions ≡ false
  pub project_keys : any_row (λ i k. k.email == email) db.project_keys ≡ false
  pub claims : any_row (λ i l. l.email == email) db.claims ≡ false
  pub invites : any_row (is_unused_for email) db.invites ≡ false
  pub password : stored_hash (find email db.accounts) ≡ some h

recover-IsEvicted :
    (now email h hash exp : ℕ) (db : Auth) → IsEvicted email h (recover now email h hash exp db)
unfolding recover
recover-IsEvicted now email h hash exp db = record {
  sessions = none_deleted (λ i s. s.email == email) db.sessions;
  project_keys = none_deleted (λ i k. k.email == email) db.project_keys;
  claims = none_deleted (λ i l. l.email == email) db.claims;
  invites =
      none_set (is_unused_for email) (is_unused_for email) (λ v. record v { used = some now })
        db.invites (λ k v e. ground arith) (λ k v e. e);
  password = stored_hash-write_password email h none db;
}

if-IsEvicted :
    (b : Bool) (now owner h hash exp email : ℕ) (db : Auth)
    → (reset_if b now owner h hash exp db).0 ≡ some email
    → IsEvicted email h (reset_if b now owner h hash exp db).1
if-IsEvicted false now owner h hash exp email db e = ground arith
if-IsEvicted true now owner h hash exp email db e =
    let same : owner ≡ email = ground arith in
    subst (λ k. IsEvicted k h (recover now owner h hash exp db)) same
      (recover-IsEvicted now owner h hash exp db)

-- A token that was used.
abbrev IsSpent : ℕ → Auth → Type 0
IsSpent hash db = is_some (find hash db.used_tokens) ≡ true

spent_by : (hash exp : ℕ) (t : Table ℕ) → is_some (find hash (use_token hash exp none t).1) ≡ true
spent_by hash exp t = ground (arith, find-append hash hash exp t)

if-IsSpent :
    (b : Bool) (now owner h hash exp email : ℕ) (db : Auth)
    → (reset_if b now owner h hash exp db).0 ≡ some email
    → IsSpent hash (reset_if b now owner h hash exp db).1
unfolding recover
if-IsSpent false now owner h hash exp email db e = ground arith
if-IsSpent true now owner h hash exp email db e = spent_by hash exp db.used_tokens

module _ (c : Crypto) (digest : ℕ → ℕ) (hash_token : Token → ℕ) where
  by-IsEvicted :
      (now : ℕ) (t : Token) (h email : ℕ) (o : Option (ℕ × Payload)) (db : Auth)
      → (reset_by c digest hash_token now t h o db).0 ≡ some email
      → IsEvicted email h (reset_by c digest hash_token now t h o db).1
  by-IsEvicted now t h email none db e = ground arith
  by-IsEvicted now t h email (some (owner, p)) db e =
      if-IsEvicted _ now owner h (hash_token t) (get_or 0 p.exp) email db e

  by-IsSpent :
      (now : ℕ) (t : Token) (h email : ℕ) (o : Option (ℕ × Payload)) (db : Auth)
      → (reset_by c digest hash_token now t h o db).0 ≡ some email
      → IsSpent (hash_token t) (reset_by c digest hash_token now t h o db).1
  by-IsSpent now t h email none db e = ground arith
  by-IsSpent now t h email (some (owner, p)) db e =
      if-IsSpent _ now owner h (hash_token t) (get_or 0 p.exp) email db e

  refused :
      (now : ℕ) (t : Token) (h : ℕ) (o : Option (ℕ × Payload)) (db : Auth)
      → IsSpent (hash_token t) db
      → reset_by c digest hash_token now t h o db ≡ (none, db)
  refused now t h none db e = refl
  refused now t h (some (owner, p)) db e =
      rw (both (is_current digest (stored_hash (find owner db.accounts)) p.pw) _ e)
    where
      both : (x y : Bool) → y ≡ true → (x && not y) ≡ false
      both x y e = ground arith

  -- Where a recovery returns an address, no session, project key or code of that address is left, no
  -- invitation to it is open, and its account has the new password.
  pub reset_password-IsEvicted :
      (now : ℕ) (t : Token) (h email : ℕ) (db : Auth)
      → (reset_password c digest hash_token now t h db).0 ≡ some email
      → IsEvicted email h (reset_password c digest hash_token now t h db).1
  unfolding reset_password
  reset_password-IsEvicted now t h email db e = by-IsEvicted now t h email _ db e

  -- When a recovery has returned an address, its token recovers nothing again, with whatever password
  -- and at whatever time, and changes nothing.
  pub reset_password_once :
      (now : ℕ) (t : Token) (h email : ℕ) (db : Auth)
      → (reset_password c digest hash_token now t h db).0 ≡ some email
      → (later again : ℕ)
      → (let after = (reset_password c digest hash_token now t h db).1 in
          reset_password c digest hash_token later t again after ≡ (none, after))
  unfolding reset_password
  reset_password_once now t h email db e later again =
      refused later t again _ _ (by-IsSpent now t h email _ db e)
