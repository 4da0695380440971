-- ===== src/Accounts/Spent.antt =====
-- A one-time token is spent once.
use boathouse_cloud.Prelude.{
  ℕ, ◌+◌, ◌≤◌, ◌<◌, ◌≡◌, refl, ap, ◌∙◌, Bool, true, false, Option, none, some, List, [], ◌∷◌, arith,
  ltb,
}
use boathouse_cloud.Prelude.Table.{Table, find, find-append}
use boathouse_cloud.Prelude.Table.Where.{delete_rows}
use boathouse_cloud.Accounts.Store.{Auth}
use boathouse_cloud.Accounts.Tokens.{
  forget_old, expiry_or, use_token, spend_token, Spend, spend_all,
}

find-delete_rows :
    (p : ℕ → ℕ → Bool) (k v : ℕ) (t : Table ℕ)
    → find k t ≡ some v
    → p k v ≡ false
    → find k (delete_rows p t) ≡ some v
find-delete_rows p k v [] e kept = ground arith
find-delete_rows p k v ((j, w) ∷ t) e kept = ground (arith, find-delete_rows p k v t)

module _ (h e : ℕ) where
  abbrev IsUsed : Auth → Type 0
  IsUsed db = find h db.used_tokens ≡ some e

  used-IsUsed :
      (k x : ℕ) (o : Option ℕ) (t : Table ℕ)
      → find h t ≡ some e
      → find h (use_token k x o t).1 ≡ some e
  used-IsUsed k x (some old) t used = used
  used-IsUsed k x none t used = ground (arith, find-append h k x t)

  -- Another call forgets the token only a minute after it expired.
  spend-IsUsed :
      (s : Spend) (db : Auth)
      → s.now ≤ e + 60
      → IsUsed db
      → IsUsed (spend_token s.hash s.expires s.now db).1
  unfolding spend_token
  spend-IsUsed s db early used =
      used-IsUsed s.hash (expiry_or s.now s.expires) _ (forget_old s.now db.used_tokens)
        (find-delete_rows _ h e db.used_tokens used (ground arith))

  abbrev pub Early : List Spend → Type 0
  Early [] = Unit
  Early (s ∷ ss) = (s.now ≤ e + 60) × Early ss

  spend_all-IsUsed : (ss : List Spend) (db : Auth) → Early ss → IsUsed db → IsUsed (spend_all ss db)
  unfolding spend_all
  spend_all-IsUsed [] db early used = used
  spend_all-IsUsed (s ∷ ss) db early used =
      spend_all-IsUsed ss _ early.1 (spend-IsUsed s db early.0 used)

  fresh_expiry :
      (x : ℕ) (o : Option ℕ) (t : Table ℕ)
      → find h t ≡ o
      → (use_token h x o t).0 ≡ true
      → find h (use_token h x o t).1 ≡ some x
  fresh_expiry x (some old) t there fresh = ground arith
  fresh_expiry x none t there fresh = ground (arith, find-append h h x t)

  given_expiry : (now : ℕ) → 0 < e → expiry_or now (some e) ≡ e
  given_expiry now positive = ground arith

  fresh-IsUsed :
      (now : ℕ) (db : Auth)
      → 0 < e
      → (spend_token h (some e) now db).0 ≡ true
      → IsUsed (spend_token h (some e) now db).1
  unfolding spend_token
  fresh-IsUsed now db positive fresh =
      fresh_expiry (expiry_or now (some e)) _ (forget_old now db.used_tokens) refl fresh
      ∙ ap some (given_expiry now positive)

  refused :
      (now : ℕ) (expires : Option ℕ) (db : Auth)
      → now ≤ e + 60
      → IsUsed db
      → (spend_token h expires now db).0 ≡ false
  unfolding spend_token
  refused now expires db early used =
      rw (find-delete_rows (λ k x. ltb (x + 60) now) h e db.used_tokens used (ground arith))

  -- When a token has been spent, spending it again is refused until a minute after it expires,
  -- whatever tokens are spent in the meantime.
  pub spend_token_once :
      (now : ℕ) (db : Auth)
      → 0 < e
      → (spend_token h (some e) now db).0 ≡ true
      → (ss : List Spend) (later : ℕ) (expires : Option ℕ) → Early ss
      → later ≤ e + 60
      → (spend_token h expires later (spend_all ss (spend_token h (some e) now db).1)).0 ≡ false
  spend_token_once now db positive fresh ss later expires early in_time =
      let spent = (spend_token h (some e) now db).1 in
      refused later expires (spend_all ss spent) in_time
        (spend_all-IsUsed ss spent early (fresh-IsUsed now db positive fresh))
