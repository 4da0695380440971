-- ===== src/Accounts/Signed.antt =====
-- Signed objects and form tokens are read back as they were made.
use boathouse_cloud.Prelude.{
  ℕ, ◌+◌, ◌≡◌, refl, ap, ◌&&◌, none, some, arith, ◌==◌, ==_refl, ltb, leb, if◌then◌else◌,
}
use boathouse_cloud.Accounts.Tokens.{
  Payload, form_fields, unexpired, Crypto, sign, verify, csrf_token, csrf_ok,
}

module _ (c : Crypto) where
  -- A signed object is read back as it was until it expires, and not after.
  verify-sign :
      (p : Payload) (e now : ℕ)
      → c.decode (c.encode p) ≡ some p
      → p.exp ≡ some e
      → verify c now (sign c p) ≡ (if ltb e now then none else some p)
  unfolding sign verify
  verify-sign p e now back expires =
      rw (==_refl (c.mac (c.encode p)), back) (ap (λ x. unexpired now x p) expires)

  -- Where the encoding of the form's object is read back as that object, the token of a form is
  -- accepted for its own scope, for an hour, and for nothing else.
  pub csrf_ok-csrf_token :
      (at scope now other : ℕ)
      → c.decode (c.encode (form_fields at scope)) ≡ some (form_fields at scope)
      → csrf_ok c now (csrf_token c at scope) other ≡ leb now (at + 3600) && scope == other
  unfolding csrf_ok csrf_token
  csrf_ok-csrf_token at scope now other back =
      rw (verify-sign (form_fields at scope) (at + 3600) now back refl) (ground arith)
