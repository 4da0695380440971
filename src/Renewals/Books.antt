-- ===== src/Renewals/Books.antt =====
-- A round of the renewal worker keeps the books and every credit.
use boathouse_cloud.Prelude.{
  ℕ, ◌+◌, refl, Bool, true, false, Option, none, some, List, [], ◌∷◌, inl, inr, Bool-cases, leb,
  ◌==◌, if◌then◌else◌,
}
use boathouse_cloud.Prelude.Int.{ℤ, pos, ltb_ℤ}
use boathouse_cloud.Prelude.Table.{Table}
use boathouse_cloud.Prelude.Exec.{Run, ok, err, Always, Always-modify, Always-fetch, Always-then}
use boathouse_cloud.Db.{Db, Notice, NoticeKey, Error}
use boathouse_cloud.Renewals.Notices.{
  due_notices, notify, notify_host, send_by, deliver, deliver_all, flush_notices, problem,
}
use boathouse_cloud.Renewals.Worker.{
  Visit, Round, busy, lease_lost, checked, worker_seconds, set_lease, drop_lease, Ended, reported,
  check_domain, next_domain, check_domains, watch_credit, close_round, run_once,
}
use boathouse_cloud.Renewals.Credit.{IsFunded, same-IsFunded}
use boathouse_cloud.Renewals.Visited.{process_domain-IsFunded}

next-IsFunded :
    (rest : ℕ → ℕ → ℕ → Db → Ended) (lease n m : ℕ) (x : Run Db Error ℕ)
    → Always IsFunded x
    → ((l i j : ℕ) (t : Db) → IsFunded t → Always IsFunded (rest l i j t).result)
    → Always IsFunded (next_domain rest lease n m x).result
next-IsFunded rest lease n m (ok k t) h go = go lease (n + 1) (m + k) t h.at_end
next-IsFunded rest lease n m (err e t) h go = record { at_end = h.at_end }

module _ (platform : ℕ → Bool) (fingerprint : ℕ) (sandbox : Bool) (host : Option ℕ)
    (digest : Db → Error → ℕ) (visit : ℕ → Visit) where
  problem-IsFunded :
      (now domain w d : ℕ) (db : Db)
      → IsFunded db
      → Always IsFunded (problem host now domain w d db)
  unfolding problem notify notify_host
  problem-IsFunded now domain w d db h = Always-fetch _ _ _ h λ ws _.
      let noticed = same-IsFunded refl refl refl refl h in
      Always-modify _ _ noticed (record { at_end = same-IsFunded refl refl refl refl noticed })

  check_domain-IsFunded :
      (domain w : ℕ) (db : Db)
      → IsFunded db
      → Always IsFunded (check_domain platform fingerprint sandbox host digest visit domain w db)
  unfolding check_domain
  check_domain-IsFunded domain w db h =
      go _ (process_domain-IsFunded platform fingerprint sandbox (visit domain) domain w db h)
    where
      go :
          (x : Run Db Error (Unit {0}))
          → Always IsFunded x
          → Always IsFunded (reported platform fingerprint sandbox host digest visit domain w x)
      go (ok a t) k = record { at_end = k.at_end }
      go (err e t) k =
          Always-then _ _ (problem-IsFunded (visit domain).now domain w (digest t e) t k.at_end)
            λ _ u j. record { at_end = j }

  check_domains-IsFunded :
      (ds : Table ℕ) (lease n m : ℕ) (db : Db)
      → IsFunded db
      → Always IsFunded
          (check_domains platform fingerprint sandbox host digest visit ds lease n m db).result
  unfolding check_domains
  check_domains-IsFunded [] lease n m db h = record { at_end = h }
  check_domains-IsFunded ((domain, w) ∷ ds) lease n m db h =
      elim (Bool-cases (db.worker_lease == lease)) [
        | inr lost ↦ rw lost (record { at_end = h })
        | inl mine ↦ rw mine (
            next-IsFunded (check_domains platform fingerprint sandbox host digest visit ds)
              ((visit domain).now + worker_seconds) n m _
              (check_domain-IsFunded domain w _ (same-IsFunded refl refl refl refl h))
              λ l i j t k. check_domains-IsFunded ds l i j t k)
      ]

module _ (host : Option ℕ) (mail : ℕ → NoticeKey → Bool) where
  sent-IsFunded :
      (now : ℕ) (b : Bool) (n : Notice) (db : Db)
      → IsFunded db
      → IsFunded (send_by host mail now b n db).0
  sent-IsFunded now false n db h = h
  sent-IsFunded now true n db h = same-IsFunded refl refl refl refl h

  delivered-IsFunded :
      (now : ℕ) (ns : List Notice) (db : Db)
      → IsFunded db
      → IsFunded (deliver_all host mail now ns db).0
  unfolding deliver_all deliver
  delivered-IsFunded now [] db h = h
  delivered-IsFunded now (n ∷ ns) db h =
      delivered-IsFunded now ns _ (sent-IsFunded now _ n _ (same-IsFunded refl refl refl refl h))

  flushed-IsFunded : (now : ℕ) (db : Db) → IsFunded db → IsFunded (flush_notices host mail now db).0
  unfolding flush_notices
  flushed-IsFunded now db h = delivered-IsFunded now (due_notices now db.notices) db h

watched-IsFunded :
    (host : Option ℕ) (now : ℕ) (b : Option ℤ) (db : Db)
    → IsFunded db
    → IsFunded (watch_credit host now b db)
unfolding notify_host
watched-IsFunded host now none db h = h
watched-IsFunded host now (some b) db h = elim (Bool-cases (ltb_ℤ b (pos 2000))) [
  | inl low ↦ rw low (same-IsFunded refl refl refl refl h)
  | inr enough ↦ rw enough h
]

dropped-IsFunded : (lease : ℕ) (db : Db) → IsFunded db → IsFunded (drop_lease lease db)
dropped-IsFunded lease db h = go (db.worker_lease == lease)
  where
    go : (b : Bool) → IsFunded (if b then set_lease 0 db else db)
    go true = same-IsFunded refl refl refl refl h
    go false = h

module _ (platform : ℕ → Bool) (fingerprint : ℕ) (sandbox : Bool) (host : Option ℕ)
    (digest : Db → Error → ℕ) (visit : ℕ → Visit) (mail : ℕ → NoticeKey → Bool)
    (balance : Option ℤ) where
  closed-IsFunded :
      (now lease : ℕ) (x : Run Db Error Round)
      → Always IsFunded x
      → Always IsFunded
          (close_round platform fingerprint sandbox host digest visit mail balance now lease x)
  closed-IsFunded now lease (err e db) h = record { at_end = dropped-IsFunded lease db h.at_end }
  closed-IsFunded now lease (ok busy db) h = record { at_end = dropped-IsFunded lease db h.at_end }
  closed-IsFunded now lease (ok (lease_lost n m) db) h = record {
    at_end = dropped-IsFunded lease db h.at_end;
  }
  closed-IsFunded now lease (ok (checked n m) db) h = record {
    at_end =
        dropped-IsFunded lease _
          (flushed-IsFunded host mail now _ (watched-IsFunded host now balance db h.at_end));
  }

  -- A round of the renewal worker over all domains, whatever the registrar and the mail server
  -- answer and whether it returns or raises, keeps every balance equal to the sum of its ledger
  -- lines, the credit of every purchase, and the credit of every renewal: the lines of its
  -- reservation and its release add up to minus its total while it is processing, uncertain or
  -- renewed, and to nothing while it is waiting, failed or cancelled.
  pub run_once-IsFunded :
      (now : ℕ) (db : Db)
      → IsFunded db
      → Always IsFunded
          (run_once platform fingerprint sandbox host digest visit mail balance now db)
  unfolding run_once
  run_once-IsFunded now db h = elim (Bool-cases (leb db.worker_lease now)) [
    | inr taken ↦ rw taken (record { at_end = h })
    | inl free ↦ rw free (
        closed-IsFunded now _ _ (
          check_domains-IsFunded platform fingerprint sandbox host digest visit _
            (now + worker_seconds) 0 0 _
            (flushed-IsFunded host mail now _ (same-IsFunded refl refl refl refl h))))
  ]
