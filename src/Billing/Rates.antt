-- ===== src/Billing/Rates.antt =====
-- `monthly_rate` and `daily_rate` of control/app/billing.py. The calendar is a parameter: a day comes
-- with its number in its month, the length of that month, and its midnight.
use boathouse_cloud.Prelude.{ℕ, zero, suc, ◌+◌, ◌-◌, ◌*◌, ◌/◌, ◌≤◌, ◌<◌, ◌≡◌, ◌∙◌, arith}
use boathouse_cloud.Db.{Workspace}
use boathouse_cloud.Referrals.Attribution.{tool_day_for}
use native.Mathlib.Nat.{le-div_iff_mul-le, div-mul-le_self, div-le_self, mul-div_cancel_left}

abbrev pub organization_month : ℕ
organization_month = 1000

-- `name` stands for the date's text, `month` for its first seven characters.
pub record Day : Type 0 where
  pub name : ℕ
  pub month : ℕ
  pub number : ℕ
  pub days : ℕ
  pub stamp : ℕ

unfoldable pub monthly_rate : Workspace → Day → ℕ
monthly_rate ws day = tool_day_for ws organization_month day.stamp

-- the cents that are due up to a day of the month
abbrev pub due : ℕ → ℕ → ℕ → ℕ
due month days n = n * month / days

pub daily_rate : Workspace → Day → ℕ
unfolding monthly_rate
daily_rate ws day =
    due (monthly_rate ws day) day.days day.number
    - due (monthly_rate ws day) day.days (day.number - 1)

div_mono : (a b k : ℕ) → 0 < k → a ≤ b → a / k ≤ b / k
div_mono a b k h le = (le-div_iff_mul-le h).1 (omega (arith, div-mul-le_self a k))

-- the charges of the first `n` days
abbrev pub charges : Workspace → (ℕ → Day) → ℕ → ℕ
charges ws day zero = 0
charges ws day (suc n) = daily_rate ws (day (suc n)) + charges ws day n

module _ (ws : Workspace) (day : ℕ → Day) (days month : ℕ) (some_days : 0 < days)
    (numbered : (n : ℕ) → (day n).number ≡ n) (one_month : (n : ℕ) → (day n).days ≡ days)
    (one_rate : (n : ℕ) → monthly_rate ws (day n) ≡ month) where
  due_step : (n : ℕ) → due month days n ≤ due month days (suc n)
  due_step n = div_mono (n * month) (suc n * month) days some_days (omega arith)

  less : (n : ℕ) → suc n - 1 ≡ n
  less n = omega arith

  charges-due : (n : ℕ) → charges ws day n ≡ due month days n
  unfolding daily_rate
  charges-due zero = omega (arith, div-le_self (0 * month) days)
  charges-due (suc n) =
      rw (one_rate, one_month, numbered, charges-due n) (rw (less n) (omega (arith, due_step n)))

  -- A workspace that is charged on every day of a month in which its monthly rate does not change
  -- pays exactly that rate: no cent is lost or gained by the rounding of the days.
  pub charges_month : charges ws day days ≡ month
  charges_month = charges-due days ∙ mul-div_cancel_left month some_days
