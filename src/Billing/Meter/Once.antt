-- ===== src/Billing/Meter/Once.antt =====
-- A workspace is charged once for a day, and its storage is charged exactly.
use boathouse_cloud.Prelude.{
  ℕ, ◌+◌, ◌*◌, ◌/◌, ◌≡◌, refl, ap, true, Option, none, some, List, [], ◌∷◌, ◌++◌, arith, inl, inr,
  Bool-cases, Option-cases,
}
use boathouse_cloud.Prelude.Int.{ℤ, pos, ◌+ℤ◌, ◌-ℤ◌, int_laws}
use boathouse_cloud.Prelude.Exec.{
  ok, Ensures, Ensures-ok, Ensures-map, Ensures-always, Ensures-bind, Ensures-atomically,
  after_modify, after_fetch, after_raise_when, atomically,
}
use boathouse_cloud.Db.{Db, Workspace, Accrual}
use boathouse_cloud.Db.Ledger.{has_ref-append, write_line}
use boathouse_cloud.Referrals.Sync.{sync}
use boathouse_cloud.Referrals.Sync.Frame.{ledger-sync}
use boathouse_cloud.Billing.Rates.{Day, daily_rate}
use boathouse_cloud.Billing.Meter.{
  meter_tool, meter_tools, meter_ref, is_metered, usage_line, charge_day, meter_day, find_accrual,
  set_accrual, with_accrual, accrued, extra_bytes, storage_gb_month, denominator,
}

module _ (w : ℕ) (day : Day) where
  charge_day-metered :
      (now : ℕ) (ws : Workspace) (ts : List (ℕ × ℕ)) (db : Db)
      → Ensures (λ _ t. is_metered w day t ≡ true) (charge_day now w ws day ts db)
  unfolding charge_day
  charge_day-metered now ws ts db = Ensures-bind _ (
      Ensures-map
        (λ storage t k. after_fetch _ _ _ λ fresh row. after_raise_when _ _ _ λ _.
          let line = usage_line now w day (pos (daily_rate ws day) +ℤ storage) fresh in
          after_modify _ _ (
            Ensures-bind _ (
              Ensures-map
                (λ d u same.
                  Ensures-ok _ _ _
                    (rw (same, has_ref-append (meter_ref w day) line t.ledger refl) refl))
                (Ensures-always (λ (u : Db). u.ledger ≡ (write_line line t).ledger)
                  (sync w (write_line line t)) (ledger-sync w (write_line line t))))))
        (Ensures-always (λ _. Unit {0}) (meter_tools day w ts db) tt))

  again :
      (now : ℕ) (ws : Workspace) (ts : List (ℕ × ℕ)) (db : Db)
      → is_metered w day db ≡ true
      → meter_day now w ws day ts db ≡ ok none db
  unfolding meter_day atomically
  again now ws ts db e = rw e refl

  meter_day-metered :
      (now : ℕ) (ws : Workspace) (ts : List (ℕ × ℕ)) (db : Db)
      → Ensures (λ _ t. is_metered w day t ≡ true) (meter_day now w ws day ts db)
  unfolding meter_day
  meter_day-metered now ws ts db = Ensures-atomically _ (elim (Bool-cases (is_metered w day db)) [
    | inl e ↦ rw e (Ensures-ok _ _ _ e)
    | inr e ↦ rw e (charge_day-metered now ws ts db)
  ])

  -- A day is charged once: when `meter_day` has returned for a workspace and a day, any later call for
  -- them, with whatever measurement, charges nothing and changes nothing.
  pub meter_day_once :
      (now : ℕ) (ws : Workspace) (ts : List (ℕ × ℕ)) (db : Db) (later : ℕ) (ws' : Workspace)
      (ts' : List (ℕ × ℕ))
      → Ensures (λ _ t. meter_day later w ws' day ts' t ≡ ok none t) (meter_day now w ws day ts db)
  meter_day_once now ws ts db later ws' ts' =
      Ensures-map (λ _ t e. again later ws' ts' t e) (meter_day-metered now ws ts db)

-- An accrual that is not there is empty.
abbrev pub days_of : Option Accrual → ℕ
days_of none = 0
days_of (some a) = a.byte_cent_days

abbrev pub charged_of : Option Accrual → ℕ
charged_of none = 0
charged_of (some a) = a.charged_cents

module _ (w key month : ℕ) where
  find-with :
      (t : List Accrual) (a : Accrual)
      → find_accrual w key month (with_accrual w key month t) ≡ some a
      → (a.byte_cent_days ≡ days_of (find_accrual w key month t))
        × (a.charged_cents ≡ charged_of (find_accrual w key month t))
  find-with t a e = elim (Option-cases (find_accrual w key month t)) [
    | inr (b, f) ↦ ground arith
    | inl f ↦ ground (arith, appended t f)
  ]
    where
      fresh : Accrual
      fresh = record {
        workspace_id = w;
        resource_key = key;
        month = month;
        byte_cent_days = 0;
        charged_cents = 0;
      }

      appended :
          (t : List Accrual)
          → find_accrual w key month t ≡ none
          → find_accrual w key month (t ++ fresh ∷ []) ≡ some fresh
      appended [] f = ground arith
      appended (b ∷ t) f = ground (arith, appended t)

  find-set :
      (n total : ℕ) (a : Accrual) (t : List Accrual)
      → find_accrual w key month t ≡ some a
      → find_accrual w key month (set_accrual w key month n total t)
        ≡ some (record a { byte_cent_days = n; charged_cents = total })
  find-set n total a [] e = ground arith
  find-set n total a (b ∷ t) e = ground (arith, find-set n total a t)

module _ (w key : ℕ) (day : Day) where
  abbrev accrual_in : Db → Option Accrual
  accrual_in db = find_accrual w key day.month db.accruals

  -- The accrual after a day: its byte-cents have grown by the day's, it has charged the whole cents
  -- in them, and what the day added is what it has charged more.
  abbrev pub Accrued : ℕ → Db → ℤ → Db → Type 0
  Accrued bytes db amount t =
      (days_of (accrual_in t) ≡ days_of (accrual_in db) + extra_bytes bytes * storage_gb_month)
      × (charged_of (accrual_in t) ≡ days_of (accrual_in t) / denominator day)
      × (pos (charged_of (accrual_in t)) ≡ pos (charged_of (accrual_in db)) +ℤ amount)

  -- A day's metering of one tool, if it returns, adds the day's byte-cents of extra storage to the
  -- tool's account of the month and brings what the month has charged for it to the whole cents in
  -- that account: fractions are carried, and the amount that is returned is the difference.
  pub meter_tool-Accrued :
      (bytes : ℕ) (db : Db) → Ensures (Accrued bytes db) (meter_tool day w (key, bytes) db)
  unfolding meter_tool
  meter_tool-Accrued bytes db =
      after_modify _ _
        (after_fetch _ _ _ λ old found. after_modify _ _ (Ensures-ok _ _ _ (changed old found)))
    where
      changed :
          (old : Accrual)
          → find_accrual w key day.month (with_accrual w key day.month db.accruals) ≡ some old
          → Accrued bytes db
              (pos (accrued old bytes / denominator day) -ℤ pos old.charged_cents)
              (record db {
                accruals =
                    set_accrual w key day.month
                      (accrued old bytes)
                      (accrued old bytes / denominator day)
                      (with_accrual w key day.month db.accruals);
              })
      changed old found =
          let (e, f) = find-with w key day.month db.accruals old found in
          rw
            (find-set w key day.month (accrued old bytes) (accrued old bytes / denominator day) old
              _ found)
            (ap (λ n. n + extra_bytes bytes * storage_gb_month) e, refl, rw f (omega int_laws))
