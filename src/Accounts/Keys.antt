-- ===== src/Accounts/Keys.antt =====
-- A code is redeemed once, and a key gives access only where its person is a member.
use boathouse_cloud.Prelude.{
  ℕ, ◌≡◌, refl, ap, ==_refl, Bool, true, false, not, ◌&&◌, Option, none, some, arith, is_some, ltb,
  ◌==◌,
}
use boathouse_cloud.Prelude.Table.{Table, find, first_row, find-update}
use boathouse_cloud.Prelude.Table.Where.{HasRow, first_row-HasRow}
use boathouse_cloud.Accounts.Store.{Auth, User, ProjectKey, Claim}
use boathouse_cloud.Accounts.Sessions.{
  redeem_if, has_workspace, Redeemed, redeem_by, redeem_claim, key_target, person_in, key_person,
  key_user,
}
use boathouse_cloud.Accounts.Current.{user_in_meets}

-- The code stood for a key in force, and stands for nothing any more.
module _ (decrypt : ℕ → ℕ) (digest : ℕ → ℕ) where
  abbrev IsUsedUp : Option Claim → Type 0
  IsUsedUp none = Unit
  IsUsedUp (some l) = is_some l.used ≡ true

  used_up :
      (later code : ℕ) (o : Option Claim) (db : Auth)
      → IsUsedUp o
      → redeem_by decrypt digest later code o db ≡ (none, db)
  used_up later code none db h = refl
  used_up later code (some l) db h =
      ap (λ b. redeem_if decrypt digest b later code l db)
        (not_redeemable l.used (ltb later l.expires && has_workspace l.workspace_id db.workspaces)
          h)
    where
      not_redeemable : (u : Option ℕ) (b : Bool) → is_some u ≡ true → (not (is_some u) && b) ≡ false
      not_redeemable u b e = ground arith

  if-IsUsedUp :
      (b : Bool) (now code : ℕ) (r : Redeemed) (l : Claim) (db : Auth)
      → find code db.claims ≡ some l
      → (redeem_if decrypt digest b now code l db).0 ≡ some r
      → IsUsedUp (find code (redeem_if decrypt digest b now code l db).1.claims)
  if-IsUsedUp false now code r l db there e = ground arith
  if-IsUsedUp true now code r l db there e =
      rw (find-update code code (λ m. record m { used = some now }) db.claims, ==_refl code, there)
        refl

  redeemed-IsUsedUp :
      (now code : ℕ) (r : Redeemed) (o : Option Claim) (db : Auth)
      → find code db.claims ≡ o
      → (redeem_by decrypt digest now code o db).0 ≡ some r
      → IsUsedUp (find code (redeem_by decrypt digest now code o db).1.claims)
  redeemed-IsUsedUp now code r none db there e = ground arith
  redeemed-IsUsedUp now code r (some l) db there e = if-IsUsedUp _ now code r l db there e

  -- When a code has been redeemed, it is never redeemed again, and the attempt changes nothing.
  pub redeem_claim_once :
      (now code : ℕ) (r : Redeemed) (db : Auth)
      → (redeem_claim decrypt digest now code db).0 ≡ some r
      → (later : ℕ)
      → (let after = (redeem_claim decrypt digest now code db).1 in
          redeem_claim decrypt digest later code after ≡ (none, after))
  unfolding redeem_claim
  redeem_claim_once now code r db e later =
      used_up later code _ _ (redeemed-IsUsedUp now code r _ db refl e)

-- The user is the key's person, in the workspace that the key is bound to and that was asked for.
pub record IsActing (asked : Option ℕ) (k : ProjectKey) (i : ℕ) (u : User) (users : Table User)
    : Type 0 where
  pub row : HasRow i u users
  pub email : u.email ≡ k.email
  pub bound : is_some k.workspace_id ≡ true → k.workspace_id ≡ some u.workspace_id
  pub as_asked : is_some asked ≡ true → asked ≡ some u.workspace_id

abbrev pub Acting : Option ℕ → Table User → Option (ℕ × ProjectKey) → Option (ℕ × User) → Type 0
Acting asked users o none = Unit
Acting asked users none (some (i, u)) = ⊥
Acting asked users (some (j, k)) (some (i, u)) = IsActing asked k i u users

target_bound :
    (bound asked : Option ℕ) (email w : ℕ) (db : Auth)
    → key_target bound email asked db ≡ some w
    → is_some bound ≡ true
    → bound ≡ some w
target_bound none asked email w db e b = ground arith
target_bound (some home) none email w db e b = e
target_bound (some home) (some a) email w db e b = ground arith

target_asked :
    (bound asked : Option ℕ) (email w : ℕ) (db : Auth)
    → key_target bound email asked db ≡ some w
    → is_some asked ≡ true
    → asked ≡ some w
target_asked bound none email w db e b = ground arith
target_asked none (some a) email w db e b = e
target_asked (some home) (some a) email w db e b = ground arith

person-Acting :
    (asked bound : Option ℕ) (k : ProjectKey) (target : Option ℕ) (r : Option (ℕ × User))
    (db : Auth)
    → k.workspace_id ≡ bound
    → key_target bound k.email asked db ≡ target
    → person_in k.email target db ≡ r
    → Acting asked db.users (some (0, k)) r
person-Acting asked bound k target none db b t e = tt
person-Acting asked bound k none (some (i, u)) db b t e = ground arith
person-Acting asked bound k (some w) (some (i, u)) db b t e =
    let met = user_in_meets w k.email i u db.users e in
    record {
      row = first_row-HasRow (λ j v. v.workspace_id == w && v.email == k.email) db.users i u e;
      email = met.1;
      bound = λ h. rw (b, met.0) (target_bound bound asked k.email w db t (rw (← b) h));
      as_asked = λ h. rw met.0 (target_asked bound asked k.email w db t h);
    }

-- A user that a key gives access as has a row among the users now, under the key's address. It is of
-- the workspace that the key is bound to, if any, and of the one that was asked for, if any.
pub key_user-Acting :
    (hash : ℕ) (asked : Option ℕ) (db : Auth)
    → Acting asked db.users
        (first_row (λ i k. k.key_hash == hash) db.project_keys)
        (key_user hash asked db)
unfolding key_user
key_user-Acting hash asked db = go _
  where
    go : (o : Option (ℕ × ProjectKey)) → Acting asked db.users o (key_person o asked db)
    go none = tt
    go (some (j, k)) = person-Acting asked k.workspace_id k _ _ db refl refl refl
