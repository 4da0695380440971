-- ===== src/Referrals/Payouts/Cover.antt =====
-- A payout that is prepared is covered by earnings.
use boathouse_cloud.Prelude.{
  ℕ, ◌≡◌, refl, Bool, true, false, not, ◌&&◌, none, some, [], ◌∷◌, ◌++◌, arith, inl, inr,
  Option-cases, ◌⊎◌, ltb, ◌==◌, if◌then◌else◌,
}
use boathouse_cloud.Prelude.Int.{ℤ, pos, negsuc, ◌+ℤ◌, ◌-ℤ◌, ltb_ℤ, ◌≤ℤ◌, int_laws, nonneg}
use boathouse_cloud.Prelude.Table.{Table, first_row, sum_rows-append}
use boathouse_cloud.Prelude.Exec.{
  Ensures, Ensures-ok, Ensures-atomically, after_modify, after_raise_if, after_raise_when,
}
use boathouse_cloud.Referrals.Sync.{earned_sum}
use boathouse_cloud.Db.{Db, Payout}
use boathouse_cloud.Referrals.Payouts.{
  min_payout_cents, is_paid, is_prepared, payout_sum, is_pending, new_payout, totals, prepare_by,
  prepare_body, prepare_payout,
}

-- At most one payout of a partner is prepared: the UNIQUE index `referral_payout_pending`.
abbrev others_done : ℕ → Table Payout → Bool
others_done email [] = true
others_done email ((i, p) ∷ t) = not (is_pending email i p) && others_done email t

abbrev pub is_single : ℕ → Table Payout → Bool
is_single email [] = true
is_single email ((i, p) ∷ t) =
    if is_pending email i p then others_done email t else is_single email t

others_done-sum :
    (email : ℕ) (t : Table Payout) → others_done email t ≡ true → payout_sum is_prepared email t ≡ 0
others_done-sum email [] h = refl
others_done-sum email ((i, p) ∷ t) h = ground (arith, others_done-sum email t)

-- The prepared payout is all that is prepared.
single-sum :
    (email i : ℕ) (old : Payout) (t : Table Payout)
    → is_single email t ≡ true
    → first_row (is_pending email) t ≡ some (i, old)
    → payout_sum is_prepared email t ≡ old.cents
single-sum email i old [] h e = ground arith
single-sum email i old ((j, p) ∷ t) h e =
    ground (arith, single-sum email i old t, others_done-sum email t)

none-sum :
    (email : ℕ) (t : Table Payout)
    → first_row (is_pending email) t ≡ none
    → payout_sum is_prepared email t ≡ 0
none-sum email [] e = refl
none-sum email ((j, p) ∷ t) e = ground (arith, none-sum email t)

-- What is paid and prepared for a partner.
abbrev pub promised : ℕ → Db → ℤ
promised email db = (totals email db).paid_cents +ℤ pos (totals email db).prepared_cents

not_below : (a b : ℤ) → ltb_ℤ a b ≡ false → b ≤ℤ a
not_below a b h = ground arith

covered_old : (all paid : ℤ) (n : ℕ) → ltb_ℤ (all -ℤ paid) (pos n) ≡ false → paid +ℤ pos n ≤ℤ all
covered_old all paid n h = omega (int_laws, not_below (all -ℤ paid) (pos n) h)

nonneg-above : (a : ℤ) → (nonneg a ≡ 0) ⊎ (pos (nonneg a) ≡ a)
nonneg-above (pos n) = inr refl
nonneg-above (negsuc n) = inl refl

covered_new :
    (all paid : ℤ)
    → ltb (nonneg (all -ℤ paid -ℤ pos 0)) min_payout_cents ≡ false
    → paid +ℤ pos (nonneg (all -ℤ paid -ℤ pos 0)) ≤ℤ all
covered_new all paid h = elim (nonneg-above (all -ℤ paid -ℤ pos 0)) [
  | inl e ↦ ground arith
  | inr e ↦ rw e (omega int_laws)
]

appended_prepared :
    (ident email n : ℕ) (t : Table Payout)
    → payout_sum is_prepared email t ≡ 0
    → payout_sum is_prepared email (t ++ (ident, new_payout email n) ∷ []) ≡ n
appended_prepared ident email n t zero = ground (
  arith,
  sum_rows-append (λ i p. email == p.email && is_prepared p.status) (λ p. p.cents) ident
      (new_payout email n) t,
)

appended_paid :
    (ident email n : ℕ) (t : Table Payout)
    → payout_sum is_paid email (t ++ (ident, new_payout email n) ∷ []) ≡ payout_sum is_paid email t
appended_paid ident email n t = ground (
  arith,
  sum_rows-append (λ i p. email == p.email && is_paid p.status) (λ p. p.cents) ident
      (new_payout email n) t,
)

module _ (ident email : ℕ) (db : Db) where
  -- What is paid and prepared is within what the partner has earned, and all that is prepared is `p`.
  abbrev pub Covered : Payout → Db → Type 0
  Covered p t =
      (promised email t ≤ℤ earned_sum email t.earnings)
      × ((totals email t).prepared_cents ≡ p.cents)

  old-Covered :
      (i : ℕ) (old : Payout)
      → is_single email db.payouts ≡ true
      → first_row (is_pending email) db.payouts ≡ some (i, old)
      → Ensures Covered (prepare_by ident email (totals email db) (some (i, old)) db)
  old-Covered i old single e =
      let all : payout_sum is_prepared email db.payouts ≡ old.cents =
        single-sum email i old db.payouts single e in
      after_raise_if _ _ _ λ enough. Ensures-ok _ _ _ (rw all (covered_old _ _ _ enough), all)

  new-Covered :
      first_row (is_pending email) db.payouts ≡ none
      → Ensures Covered (prepare_by ident email (totals email db) none db)
  new-Covered e =
      let zero : payout_sum is_prepared email db.payouts ≡ 0 = none-sum email db.payouts e in
      let cents = (totals email db).available_cents in
      after_raise_if _ _ _ λ enough. after_raise_when _ _ _ λ _. after_modify _ _ (
        Ensures-ok _ _ _ (
          rw
              (
                appended_prepared ident email cents db.payouts zero,
                appended_paid ident email cents db.payouts,
              )
              (rw zero (covered_new _ _ (rw zero at enough))),
          appended_prepared ident email cents db.payouts zero,
        ))

  -- Where at most one payout of the partner is prepared, preparing one that returns leaves what is
  -- paid and prepared for him within what he has earned, and all that is prepared is the payout that
  -- is returned.
  pub prepare_payout-Covered :
      is_single email db.payouts ≡ true → Ensures Covered (prepare_payout ident email db)
  unfolding prepare_payout prepare_body
  prepare_payout-Covered single =
      Ensures-atomically _ (elim (Option-cases (first_row (is_pending email) db.payouts)) [
        | inl e ↦ rw e (new-Covered e)
        | inr ((i, old), e) ↦ rw e (old-Covered i old single e)
      ])
