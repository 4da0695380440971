-- ===== src/Accounts/Passwords.antt =====
-- What writing a password does.
use boathouse_cloud.Prelude.{
  ℕ, ◌≡◌, refl, true, ◌&&◌, Option, none, some, [], ◌∷◌, arith, is_some, ◌==◌,
}
use boathouse_cloud.Prelude.Table.{Table, find, any_row, find-update, find-append}
use boathouse_cloud.Accounts.Store.{
  Auth, Account, has_password, coalesce, upsert, write_password, stored_hash,
}

upserted :
    (email h : ℕ) (name : Option ℕ) (o : Option Account) (t : Table Account)
    → find email t ≡ o
    → stored_hash (find email (upsert email h name o t)) ≡ some h
upserted email h name none t e =
    ground (arith, find-append email email (record { pw_hash = some h; name = name }) t)
upserted email h name (some a) t e = ground (
  arith,
  find-update email email (λ b. record { pw_hash = some h; name = coalesce name b.name }) t,
)

pub stored_hash-write_password :
    (email h : ℕ) (name : Option ℕ) (db : Auth)
    → stored_hash (find email (write_password email h name db).accounts) ≡ some h
unfolding write_password
stored_hash-write_password email h name db =
    upserted email h name (find email db.accounts) db.accounts refl

found_password :
    (email h : ℕ) (t : Table Account)
    → stored_hash (find email t) ≡ some h
    → any_row (λ e a. e == email && is_some a.pw_hash) t ≡ true
found_password email h [] e = ground arith
found_password email h ((j, a) ∷ t) e = ground (arith, found_password email h t)

-- An account with a stored hash has a password.
pub has_password-stored_hash :
    (email h : ℕ) (db : Auth)
    → stored_hash (find email db.accounts) ≡ some h
    → has_password email db ≡ true
unfolding has_password
has_password-stored_hash email h db e = rw (found_password email h db.accounts e)
