-- ===== src/Accounts/Current.antt =====
-- Sessions, keys and codes give access only to who belongs to a workspace now.
use boathouse_cloud.Prelude.{
  ℕ, ◌<◌, ◌≡◌, refl, Bool, true, false, ◌&&◌, Option, none, some, arith, inl, inr, Bool-cases, ltb,
  ◌==◌, if◌then◌else◌,
}
use boathouse_cloud.Prelude.Table.{Table, find}
use boathouse_cloud.Prelude.Table.Where.{HasRow, first_row_meets, first_row-HasRow}
use boathouse_cloud.Accounts.Store.{Auth, User, Session}
use boathouse_cloud.Accounts.Sessions.{
  live_session, user_in, is_elsewhere, home_user, user_of, session_user,
}

-- A user that is found is one of the workspace.
pub user_in_meets :
    (w email i : ℕ) (u : User) (us : Table User)
    → user_in w email us ≡ some (i, u)
    → (u.workspace_id ≡ w) × (u.email ≡ email)
user_in_meets w email i u us e =
    let met = first_row_meets (λ j v. v.workspace_id == w && v.email == email) us i u e in
    (ground arith, ground arith)

-- The session is in force, in the workspace that was asked for, and the user is its own, there.
pub record IsSignedIn (now : ℕ) (asked : Option ℕ) (i : ℕ) (u : User) (users : Table User)
    (s : Session) : Type 0 where
  pub row : HasRow i u users
  pub in_time : now < s.expires
  pub home : s.workspace_id ≡ some u.workspace_id
  pub email : s.email ≡ u.email
  pub as_asked : is_elsewhere asked (some u.workspace_id) ≡ false

home-IsSignedIn :
    (now : ℕ) (asked home : Option ℕ) (s : Session) (i : ℕ) (u : User) (db : Auth)
    → now < s.expires
    → s.workspace_id ≡ home
    → is_elsewhere asked home ≡ false
    → home_user s.email home db ≡ some (i, u)
    → IsSignedIn now asked i u db.users s
home-IsSignedIn now asked none s i u db t h a e = ground arith
home-IsSignedIn now asked (some w) s i u db t h a e =
    let met = user_in_meets w s.email i u db.users e in
    let row = first_row-HasRow (λ j v. v.workspace_id == w && v.email == s.email) db.users i u e in
    record {
      row = row;
      in_time = t;
      home = ground arith;
      email = ground arith;
      as_asked = rw met.0 a;
    }

-- A user that a session gives access as, with the session.
abbrev pub SignedIn : ℕ → Option ℕ → Table User → Option Session → Option (ℕ × User) → Type 0
SignedIn now asked users o none = Unit
SignedIn now asked users none (some (i, u)) = ⊥
SignedIn now asked users (some s) (some (i, u)) = IsSignedIn now asked i u users s

elsewhere-SignedIn :
    (b : Bool) (now : ℕ) (asked : Option ℕ) (s : Session) (db : Auth) (r : Option (ℕ × User))
    → now < s.expires
    → is_elsewhere asked s.workspace_id ≡ b
    → (if b then none else home_user s.email s.workspace_id db) ≡ r
    → SignedIn now asked db.users (some s) r
elsewhere-SignedIn b now asked s db none t a e = tt
elsewhere-SignedIn true now asked s db (some (i, u)) t a e = ground arith
elsewhere-SignedIn false now asked s db (some (i, u)) t a e =
    home-IsSignedIn now asked s.workspace_id s i u db t refl a e

-- A user that a session gives access as has a row among the users now, of the session's workspace and
-- under the session's address; the session has not expired, and is of the workspace that was asked
-- for, if any.
pub session_user-SignedIn :
    (now sid : ℕ) (asked : Option ℕ) (db : Auth)
    → SignedIn now asked db.users (find sid db.sessions) (session_user now (some sid) asked db)
unfolding session_user
session_user-SignedIn now sid asked db = go (find sid db.sessions)
  where
    go :
        (o : Option Session) → SignedIn now asked db.users o (user_of asked (live_session now o) db)
    go none = tt
    go (some s) = elim (Bool-cases (ltb now s.expires)) [
      | inl live ↦ rw live (
          elsewhere-SignedIn (is_elsewhere asked s.workspace_id) now asked s db _ (ground arith)
            refl refl)
      | inr late ↦ rw late tt
    ]
