-- ===== src/Billing/Meter/Books.antt =====
-- Metering keeps the books.
use boathouse_cloud.Prelude.{
  ℕ, refl, Bool, true, false, not, ◌&&◌, Option, none, some, List, [], ◌∷◌, inl, inr, Bool-cases,
  if◌then◌else◌,
}
use boathouse_cloud.Prelude.Int.{ℤ, pos, ◌+ℤ◌, ltb_ℤ, int_laws}
use boathouse_cloud.Prelude.Table.{Table}
use boathouse_cloud.Prelude.Exec.{
  Run, ok, err, Always, Always-bind, Always-atomically, Ensures, Ensures-ok, Ensures-map,
  Ensures-always, Ensures-bind, after_modify, after_fetch, after_raise_when,
}
use boathouse_cloud.Db.{Db, Workspace, Error}
use boathouse_cloud.Db.Ledger.{IsBalanced, write_line, write_line-IsBalanced}
use boathouse_cloud.Referrals.Sync.{sync}
use boathouse_cloud.Billing.Post.{balance}
use boathouse_cloud.Billing.Post.Books.{same_books, sync-IsBalanced}
use boathouse_cloud.Billing.Execute.{Provider}
use boathouse_cloud.Billing.Refill.{set_paused, Month, pause_at}
use boathouse_cloud.Billing.Refill.Books.{set_paused-IsBalanced, auto_refill-IsBalanced}
use boathouse_cloud.Billing.Rates.{Day, daily_rate}
use boathouse_cloud.Billing.Meter.{
  Usage, idle, unmeasured, measured, meter_tool, meter_tools, is_metered, usage_line, charge_day,
  meter_day, refilled_balance, pause_by, wants_refill, refill_by, settle_workspace, after_charge,
  meter_usage, meter_all, meter_once,
}

module _ (day : Day) (w : ℕ) where
  meter_tool-IsBalanced :
      (t : ℕ × ℕ) (db : Db) → IsBalanced db → Ensures (λ _ u. IsBalanced u) (meter_tool day w t db)
  unfolding meter_tool
  meter_tool-IsBalanced (key, bytes) db h =
      after_modify _ _
        (after_fetch _ _ _ λ old _. after_modify _ _ (Ensures-ok _ _ _ (same_books refl refl h)))

  meter_tools-IsBalanced :
      (ts : List (ℕ × ℕ)) (db : Db)
      → IsBalanced db
      → Ensures (λ _ u. IsBalanced u) (meter_tools day w ts db)
  unfolding meter_tools
  meter_tools-IsBalanced [] db h = Ensures-ok _ _ _ h
  meter_tools-IsBalanced (t ∷ ts) db h = Ensures-bind _ (
      Ensures-map
        (λ a u k.
          Ensures-bind _
            (Ensures-map (λ rest v l. Ensures-ok _ _ _ l) (meter_tools-IsBalanced ts u k)))
        (meter_tool-IsBalanced t db h))

  charge_day-IsBalanced :
      (now : ℕ) (ws : Workspace) (ts : List (ℕ × ℕ)) (db : Db)
      → IsBalanced db
      → Ensures (λ _ u. IsBalanced u) (charge_day now w ws day ts db)
  unfolding charge_day
  charge_day-IsBalanced now ws ts db h = Ensures-bind _ (
      Ensures-map
        (λ storage t k. after_fetch _ _ _ λ fresh row. after_raise_when _ _ _ λ _.
          let line = usage_line now w day (pos (daily_rate ws day) +ℤ storage) fresh in
          let written = write_line-IsBalanced line fresh t k row (omega int_laws) in
          after_modify _ _ (
            Ensures-bind _ (
              Ensures-map (λ d u l. Ensures-ok _ _ _ l)
                (Ensures-always IsBalanced (sync w (write_line line t))
                  (sync-IsBalanced w _ written)))))
        (meter_tools-IsBalanced ts db h))

  meter_day-IsBalanced :
      (now : ℕ) (ws : Workspace) (ts : List (ℕ × ℕ)) (db : Db)
      → IsBalanced db
      → Always IsBalanced (meter_day now w ws day ts db)
  unfolding meter_day
  meter_day-IsBalanced now ws ts db h =
      Always-atomically _ h (elim (Bool-cases (is_metered w day db)) [
        | inl e ↦ rw e (Ensures-ok _ _ _ h)
        | inr e ↦ rw e (charge_day-IsBalanced now ws ts db h)
      ])

pause_by-IsBalanced :
    (w : ℕ) (ws : Workspace) (b : ℤ) (db : Db)
    → IsBalanced db
    → Always IsBalanced (pause_by w ws b db)
pause_by-IsBalanced w ws b db h = record {
  at_end = go (not (ltb_ℤ pause_at b) && not ws.paused) (ltb_ℤ pause_at b && ws.paused);
}
  where
    go :
        (down up : Bool)
        → IsBalanced
            (if down then set_paused true w db else if up then set_paused false w db else db)
    go true up = set_paused-IsBalanced true w db h
    go false true = set_paused-IsBalanced false w db h
    go false false = h

refilled-IsBalanced :
    (w : ℕ) (b : ℤ) (x : Run Db Error ℤ)
    → Always IsBalanced x
    → Always IsBalanced (refilled_balance w b x)
refilled-IsBalanced w b (ok a db) h = record { at_end = h.at_end }
refilled-IsBalanced w b (err e db) h = record { at_end = h.at_end }

module _ (provider : Provider) (month : Month) (ident now : ℕ) where
  refill_by-IsBalanced :
      (w : ℕ) (ws : Workspace) (b : ℤ) (db : Db)
      → IsBalanced db
      → Always IsBalanced (refill_by provider month ident now w ws b db)
  refill_by-IsBalanced w ws b db h = elim (Bool-cases (wants_refill ws b)) [
    | inl e ↦
        rw e (refilled-IsBalanced w b _ (auto_refill-IsBalanced provider ident now month w db h))
    | inr e ↦ rw e (record { at_end = h })
  ]

  settle-IsBalanced :
      (w : ℕ) (ws : Workspace) (db : Db)
      → IsBalanced db
      → Always IsBalanced (settle_workspace provider month ident now w ws db)
  unfolding settle_workspace
  settle-IsBalanced w ws db h =
      let refilled = refill_by-IsBalanced w ws (balance w db) db h in
      Always-bind _ _ (record { at_end = h })
        (Ensures-ok _ _ _ (
          Always-bind _ _ refilled (
            Ensures-map (λ b t k. pause_by-IsBalanced w ws b t k)
              (Ensures-always IsBalanced _ refilled.at_end))))

  after_charge-IsBalanced :
      (w : ℕ) (ws : Workspace) (r : Option ℤ) (db : Db)
      → IsBalanced db
      → Always IsBalanced (after_charge provider month ident now w ws r db)
  after_charge-IsBalanced w ws none db h = record { at_end = h }
  after_charge-IsBalanced w ws (some a) db h = settle-IsBalanced w ws db h

  meter_usage-IsBalanced :
      (day : Day) (w : ℕ) (ws : Workspace) (u : Usage) (db : Db)
      → IsBalanced db
      → Always IsBalanced (meter_usage provider month ident now day w ws u db)
  meter_usage-IsBalanced day w ws idle db h = settle-IsBalanced w ws db h
  meter_usage-IsBalanced day w ws unmeasured db h = elim (Bool-cases (is_metered w day db)) [
    | inl e ↦ rw e (settle-IsBalanced w ws db h)
    | inr e ↦ rw e (record { at_end = h })
  ]
  meter_usage-IsBalanced day w ws (measured ts) db h = elim (Bool-cases (is_metered w day db)) [
    | inl e ↦ rw e (settle-IsBalanced w ws db h)
    | inr e ↦
        let charged = meter_day-IsBalanced day w now ws ts db h in
        rw e (
          Always-bind _ _ charged (
            Ensures-map (λ r t k. after_charge-IsBalanced w ws r t k)
              (Ensures-always IsBalanced _ charged.at_end)))
  ]

module _ (provider : Provider) (month : Month) (usage : ℕ → Usage) (ident : ℕ → ℕ) (now : ℕ)
    (day : Day) where
  meter_all-IsBalanced :
      (rows : Table Workspace) (db : Db)
      → IsBalanced db
      → Always IsBalanced (meter_all provider month usage ident now day rows db)
  meter_all-IsBalanced [] db h = record { at_end = h }
  meter_all-IsBalanced ((w, ws) ∷ rest) db h =
      let first = meter_usage-IsBalanced provider month (ident w) now day w ws (usage w) db h in
      Always-bind _ _ first (
        Ensures-map (λ _ t k. meter_all-IsBalanced rest t k)
          (Ensures-always IsBalanced _ first.at_end))

  -- A round of metering over all workspaces, whatever is measured and whatever the card processor
  -- answers, and whether it returns or raises, keeps every balance equal to the sum of the
  -- workspace's ledger lines.
  pub meter_once-IsBalanced :
      (db : Db)
      → IsBalanced db
      → Always IsBalanced (meter_once provider month usage ident now day db)
  unfolding meter_once
  meter_once-IsBalanced db h = meter_all-IsBalanced db.workspaces db h
