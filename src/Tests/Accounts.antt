-- ===== src/Tests/Accounts.antt =====
-- Sign-in on a small store: control/app/auth.py.
use boathouse_cloud.Prelude.{
  ℕ, ◌+◌, ◌≡◌, refl, true, false, ◌&&◌, Option, List, none, some, [], ◌∷◌, arith, ◌==◌, leb,
}
use boathouse_cloud.Prelude.Table.{find, first_row}
use boathouse_cloud.Accounts.Store.{Auth, User, Invite, Claim, has_password}
use boathouse_cloud.Accounts.Tokens.{
  Payload, no_fields, form_fields, Token, signed, Crypto, verify, csrf_token, csrf_ok, Spend,
  spend_token, spend_all,
}
use boathouse_cloud.Accounts.Invites.{invite_proof_ok, initialize, accept_invite}
use boathouse_cloud.Accounts.Reset.{reset_password}
use boathouse_cloud.Accounts.Sessions.{Redeemed, session_user, redeem_claim, key_user}
use boathouse_cloud.Accounts.Throttle.{Call, attempt, ask, answers, promised}
use boathouse_cloud.Accounts.Signed.{csrf_ok-csrf_token}
use boathouse_cloud.Accounts.Spent.{spend_token_once}
use boathouse_cloud.Accounts.Evicted.{IsEvicted, reset_password-IsEvicted, reset_password_once}
use boathouse_cloud.Accounts.Accepted.{accept_invite-Accepting, accept_invite_once, IsAccepted}
use boathouse_cloud.Accounts.Current.{SignedIn, session_user-SignedIn}
use boathouse_cloud.Accounts.Keys.{redeem_claim_once, Acting, key_user-Acting}
use boathouse_cloud.Accounts.Throttle.{answers-promised}

-- Member 3 with a password, and member 4 who is invited.
abbrev member : ℕ → Option ℕ → User
member email h = record {
  workspace_id = 1;
  email = email;
  name = none;
  is_owner = true;
  pw_hash = h;
}

abbrev invite : Invite
invite = record { workspace_id = 1; email = 4; token_hash = 80; expires = 1000; used = none }

abbrev code : Claim
code = record { workspace_id = 1; email = 3; key_enc = 90; expires = 1000; used = none }

abbrev auth : Auth
auth = record {
  workspaces = 1 ∷ [];
  users = (31, member 3 none) ∷ (32, member 4 none) ∷ [];
  accounts = (3, record { pw_hash = some 50; name = none }) ∷ [];
  invites = (60, invite) ∷ [];
  used_tokens = [];
  sessions = (70, record { workspace_id = some 1; email = 3; expires = 1000 }) ∷ [];
  project_keys = (71, record { workspace_id = some 1; email = 3; key_hash = 90 }) ∷ [];
  claims = (72, code) ∷ [];
}

-- An encoding of one object.
abbrev crypto : Payload → Crypto
crypto p = record { mac = λ r. r + 5; encode = λ q. 7; decode = λ r. some p }

abbrev token : Token
token = signed 7 12

abbrev digest : ℕ → ℕ
digest h = h + 1

abbrev hash_token : Token → ℕ
hash_token t = 44

abbrev form : Payload
form = form_fields 100 6

csrf_ok-csrf_token_example :
    csrf_ok (crypto form) 200 (csrf_token (crypto form) 100 6) 6 ≡ leb 200 (100 + 3600) && 6 == 6
csrf_ok-csrf_token_example = csrf_ok-csrf_token (crypto form) 100 6 200 6 refl

abbrev other_token : Spend
other_token = record { hash = 9; expires = none; now = 400 }

spend_token_once_example :
    (spend_token 8 none 1000
      (spend_all (other_token ∷ []) (spend_token 8 (some 1000) 300 auth).1)).0
    ≡ false
unfolding spend_token
spend_token_once_example =
    spend_token_once 8 1000 300 auth (omega arith) refl (other_token ∷ []) 1000 none
      (omega arith, tt) (omega arith)

-- Recovery of the account of 3.
abbrev recovery : Payload
recovery = record no_fields { exp = some 1000; reset = some 3; pw = some 51; nonce = some 2 }

recovered : (reset_password (crypto recovery) digest hash_token 200 token 55 auth).0 ≡ some 3
unfolding reset_password verify
recovered = refl

reset_password-IsEvicted_example :
    IsEvicted 3 55 (reset_password (crypto recovery) digest hash_token 200 token 55 auth).1
reset_password-IsEvicted_example =
    reset_password-IsEvicted (crypto recovery) digest hash_token 200 token 55 3 auth recovered

reset_password_once_example :
    (let after = (reset_password (crypto recovery) digest hash_token 200 token 55 auth).1 in
      reset_password (crypto recovery) digest hash_token 300 token 56 after ≡ (none, after))
reset_password_once_example =
    reset_password_once (crypto recovery) digest hash_token 200 token 55 3 auth recovered 300 56

-- The invitation of 4.
abbrev invited : Payload
invited = record no_fields { exp = some 1000; invite = some 60; token = some 80; email = some 4 }

accepted :
    (accept_invite (crypto invited) 200 (some (60, invite)) 55 none (some token) auth).0 ≡ true
unfolding accept_invite invite_proof_ok verify has_password
accepted = refl

accept_invite-Accepting_example :
    IsAccepted 200 55 invite auth
      (accept_invite (crypto invited) 200 (some (60, invite)) 55 none (some token) auth).1
accept_invite-Accepting_example =
    accept_invite-Accepting (crypto invited) 200 60 invite 55 none (some token) auth accepted

accept_invite_once_example :
    (let after =
        (accept_invite (crypto invited) 200 (some (60, invite)) 55 none (some token) auth).1 in
      accept_invite (crypto invited) 300 (some (60, invite)) 56 none (some token) after
      ≡ (false, after))
unfolding accept_invite invite_proof_ok verify has_password initialize
accept_invite_once_example =
    accept_invite_once (crypto invited) 200 60 invite 55 none (some token) auth invite refl accepted
      300 60 invite 56 none (some token) (record invite { used = some 200 }) refl refl

session_user-SignedIn_example :
    SignedIn 200
      (some 1)
      auth.users
      (find 70 auth.sessions)
      (session_user 200 (some 70) (some 1) auth)
session_user-SignedIn_example = session_user-SignedIn 200 70 (some 1) auth

abbrev plain : ℕ → ℕ
plain k = k

abbrev redeemed_key : Redeemed
redeemed_key = record { workspace_id = 1; email = 3; key = 90 }

redeem_claim_once_example :
    (let after = (redeem_claim plain plain 200 72 auth).1 in
      redeem_claim plain plain 300 72 after ≡ (none, after))
unfolding redeem_claim
redeem_claim_once_example = redeem_claim_once plain plain 200 72 redeemed_key auth refl 300

key_user-Acting_example :
    Acting none auth.users
      (first_row (λ i k. k.key_hash == 90) auth.project_keys)
      (key_user 90 none auth)
key_user-Acting_example = key_user-Acting 90 none auth

abbrev calls : List Call
calls = attempt 10 1 ∷ ask 20 1 ∷ attempt 30 1 ∷ ask 40 1 ∷ ask 950 1 ∷ []

answers-promised_example : answers 2 900 calls [] ≡ promised 2 900 calls []
answers-promised_example =
    answers-promised 2 900 calls
      (omega arith, (omega arith, (omega arith, (omega arith, (omega arith, tt)))))

-- One attempt, then two, then one again.
waits : answers 2 900 calls [] ≡ false ∷ true ∷ false ∷ []
unfolding answers
waits = refl
