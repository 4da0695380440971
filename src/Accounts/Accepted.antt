-- ===== src/Accounts/Accepted.antt =====
-- An invitation initialises an account once, and is no way to another's password.
use boathouse_cloud.Prelude.{
  ℕ, ◌≡◌, refl, ap, sym, ◌+◌, ◌*◌, Bool, true, false, not, ◌&&◌, Option, none, some, arith, subst,
}
use boathouse_cloud.Prelude.Table.{find, any_row, sum_rows, sum_rows-append}
use boathouse_cloud.Prelude.Table.Where.{none_set, delete_rows, sum_rows-delete_rows}
use boathouse_cloud.Accounts.Store.{Auth, Invite, has_password, stored_hash}
use boathouse_cloud.Accounts.Tokens.{Token, Crypto}
use boathouse_cloud.Accounts.Invites.{
  is_pending_for, create_invite, invite_days, is_live, is_member, is_unused_for, initialize,
  initialize_if, may_accept, accept_live, accept_proven, invite_proof_ok, accept_invite,
}
use boathouse_cloud.Accounts.Passwords.{stored_hash-write_password, has_password-stored_hash}

-- The invitation stood, its account had no password, and now it has this one; no invitation to the
-- same address is open.
pub record IsAccepted (now h : ℕ) (v : Invite) (db after : Auth) : Type 0 where
  pub live : is_live now v ≡ true
  pub no_password : has_password v.email db ≡ false
  pub member : is_member v.workspace_id v.email db ≡ true
  pub password : stored_hash (find v.email after.accounts) ≡ some h
  pub invites : any_row (is_unused_for v.email) after.invites ≡ false

initialize-IsAccepted :
    (now h : ℕ) (name : Option ℕ) (v : Invite) (db : Auth)
    → may_accept now v db ≡ true
    → IsAccepted now h v db (initialize now h name v db)
unfolding initialize
initialize-IsAccepted now h name v db may = record {
  live = ground arith;
  no_password = ground arith;
  member = ground arith;
  password = stored_hash-write_password v.email h name db;
  invites =
      none_set (is_unused_for v.email) (is_unused_for v.email) (λ u. record u { used = some now })
        db.invites (λ k u e. ground arith) (λ k u e. e);
}

-- The row behind an invitation, as the transaction finds it.
abbrev pub Accepting : ℕ → ℕ → Option Invite → Auth → Auth → Type 0
Accepting now h none db after = ⊥
Accepting now h (some v) db after = IsAccepted now h v db after

if-IsAccepted :
    (b : Bool) (now h : ℕ) (name : Option ℕ) (v : Invite) (db : Auth)
    → may_accept now v db ≡ b
    → (initialize_if b now h name v db).0 ≡ true
    → IsAccepted now h v db (initialize_if b now h name v db).1
if-IsAccepted false now h name v db may e = ground arith
if-IsAccepted true now h name v db may e = initialize-IsAccepted now h name v db may

live-Accepting :
    (now h : ℕ) (name : Option ℕ) (o : Option Invite) (db : Auth)
    → (accept_live now h name o db).0 ≡ true
    → Accepting now h o db (accept_live now h name o db).1
live-Accepting now h name none db e = ground arith
live-Accepting now h name (some v) db e = if-IsAccepted _ now h name v db refl e

kept_password :
    (now h : ℕ) (name : Option ℕ) (v : Invite) (db : Auth)
    → has_password v.email db ≡ true
    → accept_live now h name (some v) db ≡ (false, db)
kept_password now h name v db has =
    ap (λ b. initialize_if b now h name v db)
      (no_way (is_live now v) (has_password v.email db) _ has)
  where
    no_way : (x y z : Bool) → y ≡ true → (x && (not y && z)) ≡ false
    no_way x y z e = ground arith

proven-Accepting :
    (b : Bool) (now h : ℕ) (name : Option ℕ) (o : Option Invite) (db : Auth)
    → (accept_proven b now h name o db).0 ≡ true
    → Accepting now h o db (accept_proven b now h name o db).1
proven-Accepting false now h name o db e = ground arith
proven-Accepting true now h name o db e = live-Accepting now h name o db e

refused :
    (b : Bool) (now h : ℕ) (name : Option ℕ) (o : Option Invite) (v : Invite) (db : Auth)
    → o ≡ some v
    → has_password v.email db ≡ true
    → accept_proven b now h name o db ≡ (false, db)
refused false now h name o v db e has = refl
refused true now h name none v db e has = ground arith
refused true now h name (some w) v db e has =
    kept_password now h name w db (subst (λ x. has_password x db ≡ true) (ground arith) has)

module _ (c : Crypto) where
  -- Where an invitation is accepted, it was live, its address had no password and belonged to the
  -- workspace; its account has the new password then, and no invitation to that address is open.
  pub accept_invite-Accepting :
      (now i : ℕ) (v : Invite) (h : ℕ) (name : Option ℕ) (proof : Option Token) (db : Auth)
      → (accept_invite c now (some (i, v)) h name proof db).0 ≡ true
      → Accepting now h (find i db.invites) db (accept_invite c now (some (i, v)) h name proof db).1
  unfolding accept_invite
  accept_invite-Accepting now i v h name proof db e =
      proven-Accepting (invite_proof_ok c now i v proof) now h name (find i db.invites) db e

  -- An invitation to an address that has a password is refused, whoever issued it and whatever proof
  -- comes with it, and changes nothing.
  pub accept_invite-has_password :
      (now i : ℕ) (v : Invite) (h : ℕ) (name : Option ℕ) (proof : Option Token) (db : Auth)
      (row : Invite)
      → find i db.invites ≡ some row
      → has_password row.email db ≡ true
      → accept_invite c now (some (i, v)) h name proof db ≡ (false, db)
  unfolding accept_invite
  accept_invite-has_password now i v h name proof db row found has =
      refused (invite_proof_ok c now i v proof) now h name (find i db.invites) row db found has

  accepted_row :
      (now h : ℕ) (o : Option Invite) (l : Invite) (db after : Auth)
      → o ≡ some l
      → Accepting now h o db after
      → has_password l.email after ≡ true
  accepted_row now h none l db after e k = ground arith
  accepted_row now h (some w) l db after e k =
      subst (λ x. has_password x after ≡ true) (ground arith)
        (has_password-stored_hash w.email h after k.password)

  -- When an invitation has been accepted, no other to the same address is, by whatever workspace it
  -- was issued and with whatever proof, and the attempt changes nothing.
  pub accept_invite_once :
      (now i : ℕ) (v : Invite) (h : ℕ) (name : Option ℕ) (proof : Option Token) (db : Auth)
      (row : Invite)
      → find i db.invites ≡ some row
      → (accept_invite c now (some (i, v)) h name proof db).0 ≡ true
      → (later j : ℕ) (u : Invite) (h' : ℕ) (name' : Option ℕ) (proof' : Option Token)
        (other : Invite)
      → (let after = (accept_invite c now (some (i, v)) h name proof db).1 in
          find j after.invites ≡ some other
          → other.email ≡ row.email
          → accept_invite c later (some (j, u)) h' name' proof' after ≡ (false, after))
  accept_invite_once now i v h name proof db row found e later j u h' name' proof' other there
        same =
      let after = (accept_invite c now (some (i, v)) h name proof db).1 in
      accept_invite-has_password later j u h' name' proof' after other there (
        subst (λ x. has_password x after ≡ true) (sym same)
          (accepted_row now h (find i db.invites) row db after found
            (accept_invite-Accepting now i v h name proof db e)))

-- A new invitation replaces the open one of the same address: the workspace has exactly one then.
pub create_invite_single :
    (now ident hash w email : ℕ) (db : Auth)
    → sum_rows (is_pending_for w email) (λ _. 1) (create_invite now ident hash w email db).invites
      ≡ 1
unfolding create_invite
create_invite_single now ident hash w email db = ground (
  arith,
  sum_rows-append (is_pending_for w email) (λ _. 1) ident
      (record {
        workspace_id = w;
        email = email;
        token_hash = hash;
        expires = now + invite_days * 86400;
        used = none;
      })
      (delete_rows (is_pending_for w email) db.invites),
  sum_rows-delete_rows (is_pending_for w email) (λ _. 1) db.invites,
)
