-- ===== src/Referrals/Attribution.antt =====
-- Who referred whom, in control/app/referrals.py: `lookup`, `attribution`, `attach` and
-- `tool_day_for`. Addresses and codes come trimmed and in one case; an absent code is `none`.
use boathouse_cloud.Prelude.{
  ℕ, ◌+◌, ◌*◌, ◌/◌, ◌≡◌, refl, Bool, true, false, not, ◌&&◌, ◌||◌, Option, none, some, List, [],
  ◌∷◌, ◌++◌, ◌==◌, same, ltb, is_some, if◌then◌else◌, arith,
}
use boathouse_cloud.Prelude.Table.{find, update, any_row, find-append}
use boathouse_cloud.Prelude.Exec.{
  pure, raise_if, raise_when, modify, fetch, atomically, ◌>>=◌, ◌>>◌, Ensures, Ensures-ok,
  Ensures-map, after_raise_if, after_raise_when, after_modify, after_fetch,
}
use boathouse_cloud.Db.{Db, Workspace, Customer, Code, Error, Action}

abbrev pub discount_seconds : ℕ
discount_seconds = 60 * 86400

-- `lookup`: the partner of a code
abbrev pub lookup : ℕ → Db → Option ℕ
lookup code db = find code db.codes

abbrev pub has_password : ℕ → List ℕ → Bool
has_password email [] = false
has_password email (e ∷ es) = email == e || has_password email es

-- SELECT 1 FROM workspaces w JOIN accounts a … WHERE w.owner_email=? AND a.pw_hash IS NOT NULL
abbrev pub is_owner : ℕ → Db → Bool
is_owner email db =
    any_row (λ i ws. same ws.owner_email (some email)) db.workspaces
    && has_password email db.accounts

abbrev pub new_customer : ℕ → ℕ → ℕ → Customer
new_customer when code partner = record {
  referrer_email = partner;
  code = code;
  created = when;
  discount_until = when + discount_seconds;
}

abbrev pub insert_customer : ℕ → Customer → Db → Db
insert_customer email row db = record db { customers = db.customers ++ (email, row) ∷ [] }

abbrev pub attribute_new : ℕ → ℕ → Option ℕ → Action (Option Customer)
attribute_new when email none = pure none
attribute_new when email (some code) = do
  partner ← fetch (lookup code) (Error.referral Code.provider_code)
  raise_if (partner == email) (Error.referral Code.own_code)
  raise_when (is_owner email) (Error.referral Code.not_new)
  modify (insert_customer email (new_customer when code partner))
  pure (some (new_customer when code partner))

abbrev pub attribute_by : ℕ → ℕ → Option ℕ → Option Customer → Action (Option Customer)
attribute_by when email code (some old) = do
  raise_if (is_some code && not (same code (some old.code))) (Error.referral Code.other_partner)
  pure (some old)
attribute_by when email code none = attribute_new when email code

-- `attribution`, inside the caller's transaction
pub attribution : ℕ → ℕ → Option ℕ → Action (Option Customer)
attribution when email code db = attribute_by when email code (find email db.customers) db

abbrev pub refer : ℕ → ℕ → Workspace → Workspace
refer when partner ws =
    if is_some ws.referred_by
    then ws
    else record ws { referred_by = some partner; discount_until = some (when + discount_seconds) }

-- `attach`
pub attach : ℕ → ℕ → ℕ → Action (Unit {0})
attach when w partner = atomically (do
  old ← fetch (λ db. find w db.workspaces) (Error.referral Code.not_found)
  raise_if (is_some old.referred_by && not (same old.referred_by (some partner)))
      (Error.referral Code.other_partner)
  modify (λ db. record db { workspaces = update w (refer when partner) db.workspaces }))

-- `tool_day_for`: half the price while the discount lasts
abbrev pub halved : ℕ → ℕ → Option ℕ → ℕ
halved base now none = base
halved base now (some until) = if not (until == 0) && ltb now until then base / 2 else base

unfoldable pub tool_day_for : Workspace → ℕ → ℕ → ℕ
tool_day_for ws base now = halved base now ws.discount_until

found_customer :
    (email : ℕ) (row : Customer) (db : Db)
    → find email db.customers ≡ none
    → find email (insert_customer email row db).customers ≡ some row
found_customer email row db e = ground (arith, find-append email email row db.customers)

kept_by :
    (when email : ℕ) (code : Option ℕ) (o : Option Customer) (db : Db)
    → find email db.customers ≡ o
    → Ensures (λ r t. find email t.customers ≡ r) (attribute_by when email code o db)
kept_by when email code (some old) db e = after_raise_if _ _ _ λ _. Ensures-ok _ _ _ e
kept_by when email none none db e = Ensures-ok _ _ _ e
kept_by when email (some code) none db e = after_fetch _ _ _ λ partner _. after_raise_if _ _ _ λ _.
    after_raise_when _ _ _ λ _.
      after_modify _ _
        (Ensures-ok _ _ _ (found_customer email (new_customer when code partner) db e))

kept_again :
    (later email : ℕ) (code : Option ℕ) (r : Option Customer) (db : Db)
    → find email db.customers ≡ r
    → is_some r ≡ true
    → Ensures (λ r' t. (r' ≡ r) × (t ≡ db)) (attribution later email code db)
unfolding attribution
kept_again later email code none db e some_row = ground arith
kept_again later email code (some old) db e some_row =
    rw e (after_raise_if _ _ _ λ _. Ensures-ok _ _ _ (refl, refl))

-- The first referral wins: where `attribution` has returned a partner for a customer, any later call
-- for that customer that returns, with whatever code, returns the same row and changes nothing.
pub attribution_first :
    (when later email : ℕ) (code code' : Option ℕ) (db : Db)
    → Ensures
        (λ r t.
          is_some r ≡ true
          → Ensures (λ r' t'. (r' ≡ r) × (t' ≡ t)) (attribution later email code' t))
        (attribution when email code db)
unfolding attribution
attribution_first when later email code code' db =
    Ensures-map (λ r t e some_row. kept_again later email code' r t e some_row)
      (kept_by when email code (find email db.customers) db refl)
