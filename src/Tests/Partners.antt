-- ===== src/Tests/Partners.antt =====
-- Payouts and attribution on the small store.
use boathouse_cloud.Prelude.{◌≡◌, refl, true, false, none, some, [], ◌∷◌, is_some}
use boathouse_cloud.Prelude.Int.{pos}
use boathouse_cloud.Prelude.Exec.{ok, Ensures}
use boathouse_cloud.Db.{Db, Payout, PayoutStatus}
use boathouse_cloud.Referrals.Payouts.{prepare_payout, mark_paid}
use boathouse_cloud.Referrals.Payouts.Cover.{Covered, prepare_payout-Covered}
use boathouse_cloud.Referrals.Payouts.Marks.{committed, mark_paid_twice, mark_paid-committed}
use boathouse_cloud.Referrals.Attribution.{attribution, attribution_first}
use boathouse_cloud.Tests.Money.{store}

abbrev prepared : Payout
prepared = record { email = 7; cents = 1500; status = PayoutStatus.prepared; payout_ref = none }

-- The partner 7 has earned 2000 cents, of which 1500 are prepared; his code is 77.
abbrev partners : Db
partners = record store {
  earnings =
      record {
        referrer_email = 7;
        workspace_id = 1;
        cents = pos 2000;
        revision = 1;
        legacy_paid = false;
      }
      ∷ [];
  payouts = (30, prepared) ∷ [];
  codes = (77, 7) ∷ [];
}

prepare_payout-Covered_example : Ensures (Covered 31 7 partners) (prepare_payout 31 7 partners)
prepare_payout-Covered_example = prepare_payout-Covered 31 7 partners refl

mark_paid_twice_example :
    Ensures
      (λ c t. mark_paid 7 (some 500) (some 30) (some 1500) t ≡ ok c t)
      (mark_paid 7 (some 500) (some 30) (some 1500) partners)
mark_paid_twice_example = mark_paid_twice 7 (some 500) (some 30) (some 1500) partners

mark_paid-committed_example :
    Ensures
      (λ _ t. committed 7 t ≡ committed 7 partners)
      (mark_paid 7 (some 500) (some 30) (some 1500) partners)
mark_paid-committed_example = mark_paid-committed 7 7 (some 500) (some 30) (some 1500) partners

attribution_first_example :
    Ensures
      (λ r t.
        is_some r ≡ true → Ensures (λ r' t'. (r' ≡ r) × (t' ≡ t)) (attribution 30 3 (some 78) t))
      (attribution 20 3 (some 77) partners)
attribution_first_example = attribution_first 20 30 3 (some 77) (some 78) partners
