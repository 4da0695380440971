-- ===== src/Renewals/Outbox.antt =====
-- What `flush_notices` hands to `mail.send`.
use boathouse_cloud.Prelude.{
  ℕ, ◌≡◌, refl, Bool, true, false, ◌&&◌, Option, List, [], ◌∷◌, ◌++◌, arith, inl, inr, Bool-cases,
}
use boathouse_cloud.Db.{Db, Notice, NoticeKey}
use boathouse_cloud.Renewals.Notices.{
  is_owner, is_due, due_notices, can_lease, lease_notice, set_notice, addressee, send_by, deliver,
  deliver_all, flush_notices,
}

module _ (host : Option ℕ) (mail : ℕ → NoticeKey → Bool) (now : ℕ) where
  -- Unsent, free of a lease, and to a present owner of the workspace that it is for.
  abbrev pub Addressed : Db → List Notice → Type 0
  Addressed db [] = Unit
  Addressed db (n ∷ ns) =
      (is_due now n ≡ true)
      × (is_owner (addressee host n) n.email db.owners ≡ true)
      × Addressed db ns

  abbrev Due : List Notice → Type 0
  Due [] = Unit
  Due (n ∷ ns) = (is_due now n ≡ true) × Due ns

  due_notices-Due : (ns : List Notice) → Due (due_notices now ns)
  due_notices-Due [] = tt
  due_notices-Due (n ∷ ns) = elim (Bool-cases (is_due now n)) [
    | inl due ↦ rw due (due, due_notices-Due ns)
    | inr later ↦ rw later (due_notices-Due ns)
  ]

  Addressed-append :
      (db : Db) (xs ys : List Notice) → Addressed db xs → Addressed db ys → Addressed db (xs ++ ys)
  Addressed-append db [] ys h k = k
  Addressed-append db (x ∷ xs) ys h k = (h.0, h.1, Addressed-append db xs ys h.2 k)

  -- Only the owners are read.
  Addressed-owners :
      (db after : Db) (ns : List Notice)
      → after.owners ≡ db.owners
      → Addressed after ns
      → Addressed db ns
  Addressed-owners db after [] e h = tt
  Addressed-owners db after (n ∷ ns) e h = (h.0, rw⁻¹ e h.1, Addressed-owners db after ns e h.2)

  sent-Addressed :
      (b : Bool) (n : Notice) (db : Db)
      → is_due now n ≡ true
      → (b ≡ true → is_owner (addressee host n) n.email db.owners ≡ true)
      → ((send_by host mail now b n db).0.owners ≡ db.owners)
        × Addressed db (send_by host mail now b n db).1
  sent-Addressed false n db due own = (refl, tt)
  sent-Addressed true n db due own = (refl, (due, own refl, tt))

  delivered-Addressed :
      (ns : List Notice) (db : Db) → Due ns → Addressed db (deliver_all host mail now ns db).1
  unfolding deliver_all deliver
  delivered-Addressed [] db h = tt
  delivered-Addressed (n ∷ ns) db h =
      let leased = record db {
        notices = set_notice n.notice_key n.email (lease_notice now) db.notices;
      } in
      let one =
        sent-Addressed
          (can_lease now n.notice_key n.email db.notices
            && is_owner (addressee host n) n.email db.owners)
          n leased h.0 (λ both. ground arith) in
      Addressed-append db _ _ (Addressed-owners db leased _ refl one.1)
        (Addressed-owners db (deliver host mail now n db).0 _ one.0 (delivered-Addressed ns _ h.1))

  -- Every notice that is handed to the mail server was unsent and leased to nobody, and goes to a
  -- present owner of the workspace that it is for (for a notice to the host, of the host's workspace),
  -- also where the recipient was an owner when it was queued and is none any more.
  pub flush_notices-Addressed : (db : Db) → Addressed db (flush_notices host mail now db).1
  unfolding flush_notices
  flush_notices-Addressed db =
      delivered-Addressed (due_notices now db.notices) db (due_notices-Due db.notices)
