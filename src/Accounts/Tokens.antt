-- ===== src/Accounts/Tokens.antt =====
-- `sign`, `verify`, `csrf_token`, `csrf_ok` and `spend_token` of control/app/auth.py.
use boathouse_cloud.Prelude.{
  ℕ, ◌+◌, Bool, true, false, Option, none, some, List, ◌++◌, [], ◌∷◌, ◌==◌, ltb, same,
  if◌then◌else◌,
}
use boathouse_cloud.Prelude.Table.{Table, find}
use boathouse_cloud.Prelude.Table.Where.{delete_rows}
use boathouse_cloud.Accounts.Store.{Auth}

-- The fields of a signed object that the program reads, `none` where one is missing or of another
-- type; `exp` is `none` where it is no finite number, and `some 0` where it is missing.
pub record Payload : Type 0 where
  pub exp : Option ℕ
  pub csrf : Option ℕ
  pub invite : Option ℕ
  pub token : Option ℕ
  pub email : Option ℕ
  pub reset : Option ℕ
  pub pw : Option ℕ
  pub nonce : Option ℕ

abbrev pub no_fields : Payload
no_fields = record {
  exp = some 0;
  csrf = none;
  invite = none;
  token = none;
  email = none;
  reset = none;
  pw = none;
  nonce = none;
}

-- A token's text: two parts around a dot, or a text without one.
pub data Token : Type 0 where
  signed : ℕ → ℕ → Token
  plain_text : ℕ → Token

abbrev pub unexpired : ℕ → Option ℕ → Payload → Option Payload
unexpired now none p = none
unexpired now (some e) p = if ltb e now then none else some p

abbrev pub checked : ℕ → Option Payload → Option Payload
checked now none = none
checked now (some p) = unexpired now p.exp p

-- What HMAC with the master key, and base64 over JSON do.
pub record Crypto : Type 0 where
  pub mac : ℕ → ℕ
  pub encode : Payload → ℕ
  pub decode : ℕ → Option Payload

abbrev pub form_fields : ℕ → ℕ → Payload
form_fields now scope = record no_fields { csrf = some scope; exp = some (now + 3600) }

module _ (c : Crypto) where
  unfoldable pub sign : Payload → Token
  sign p = signed (c.encode p) (c.mac (c.encode p))

  unfoldable pub verify : ℕ → Token → Option Payload
  verify now (plain_text t) = none
  verify now (signed raw sig) = if c.mac raw == sig then checked now (c.decode raw) else none

  unfoldable pub csrf_token : ℕ → ℕ → Token
  unfolding sign
  csrf_token now scope = sign (form_fields now scope)

  abbrev pub in_scope : ℕ → Option Payload → Bool
  in_scope scope none = false
  in_scope scope (some p) = same p.csrf (some scope)

  unfoldable pub csrf_ok : ℕ → Token → ℕ → Bool
  unfolding verify
  csrf_ok now t scope = in_scope scope (verify now t)

-- DELETE FROM used_tokens WHERE expires < now - 60
abbrev pub forget_old : ℕ → Table ℕ → Table ℕ
forget_old now t = delete_rows (λ h e. ltb (e + 60) now) t

abbrev pub expiry_or : ℕ → Option ℕ → ℕ
expiry_or now none = now + 900
expiry_or now (some e) = if e == 0 then now + 900 else e

-- INSERT OR IGNORE INTO used_tokens, with its `rowcount`
abbrev pub use_token : ℕ → ℕ → Option ℕ → Table ℕ → Bool × Table ℕ
use_token h e (some old) t = (false, t)
use_token h e none t = (true, t ++ (h, e) ∷ [])

-- `spend_token`, by the hash of the token
unfoldable pub spend_token : ℕ → Option ℕ → ℕ → Auth → Bool × Auth
spend_token h expires now db =
    let kept = forget_old now db.used_tokens in
    let (fresh, t) = use_token h (expiry_or now expires) (find h kept) kept in
    (fresh, record db { used_tokens = t })

-- What is handed to one call of `spend_token`: the hash, the expiry and the clock.
pub record Spend : Type 0 where
  pub hash : ℕ
  pub expires : Option ℕ
  pub now : ℕ

unfoldable pub spend_all : List Spend → Auth → Auth
spend_all [] db = db
spend_all (s ∷ ss) db = spend_all ss (spend_token s.hash s.expires s.now db).1
