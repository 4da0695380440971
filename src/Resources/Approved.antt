-- ===== src/Resources/Approved.antt =====
-- A limit is raised by what its owner approved, once.
use boathouse_cloud.Prelude.{
  ℕ, ◌≤◌, ◌≡◌, ◌⊎◌, inl, inr, refl, sym, ap, subst, ◌∙◌, Bool, true, false, not, ◌&&◌, Option, none,
  some, arith, is_some, ltb, same-eq, ◌==◌, ==_refl, same,
}
use boathouse_cloud.Prelude.Exec.{
  ok, ◌>>=◌, Ensures, Ensures-ok, Ensures-err, Ensures-map, Ensures-bind, after_modify, after_gets,
  after_raise_if, after_or_raise, after_fetch,
}
use boathouse_cloud.Prelude.Table.{Table, find, update, find-update}
use boathouse_cloud.Resources.Store.{Limit, Quote, Store, Tool, with_limit, limit_of}
use boathouse_cloud.Resources.Kept.{
  HasLimit, with_limit-HasLimit, with_limit-found, limit_of-found, sample-HasLimit,
}
use boathouse_cloud.Resources.Sample.{Host, Start, started, refused, broken}
use boathouse_cloud.Resources.Capacity.{
  in_app, quote_in, is_approved, approve, confirm_rows, Placed, restart, confirm_open, confirm_by,
  confirm,
}

time_of : (a b : ℕ) → ltb a b ≡ false → b ≤ a
time_of a b e = ground arith

same_of : (a b : ℕ) → not (a == b) ≡ false → a ≡ b
same_of a b e = ground arith

module _ (t : Tool) where
  -- The quote stands for the app and the approval, and is confirmed; the row is the result.
  record IsSettled (i : ℕ) (maximum : Option ℕ) (by : ℕ) (l : Limit) (db : Store) : Type 0 where
    quote : Quote
    there : quote_in t i db ≡ some quote
    approved : is_approved maximum by quote ≡ true
    done : is_some quote.confirmed ≡ true
    row : find t.resource_key db.limits ≡ some l

  -- The limit was raised to that of the quote, which was in force.
  pub record IsRaised (now : ℕ) (q : Quote) (l : Limit) (before : Store) : Type 0 where
    pub in_time : now ≤ q.expires
    pub unchanged : (limit_of t before).limit_bytes ≡ q.old_limit_bytes
    pub size : l.limit_bytes ≡ q.limit_bytes

  pub record IsConfirmed (now i : ℕ) (maximum : Option ℕ) (by : ℕ) (before : Store) (l : Limit)
      (after : Store) : Type 0 where
    pub quote : Quote
    pub there : quote_in t i before ≡ some quote
    pub price : maximum ≡ some quote.max_extra_monthly_cents
    pub creator : quote.created_by ≡ by
    pub outcome :
        ((is_some quote.confirmed ≡ true) × (after ≡ with_limit t before))
        ⊎ IsRaised now quote l before

  is_of : Quote → Bool
  is_of q = q.workspace_id == t.workspace_id && q.resource_key == t.resource_key

  in_app-of : (o : Option Quote) (q : Quote) → in_app t o ≡ some q → (o ≡ some q) × (is_of q ≡ true)
  unfolding is_of
  in_app-of none q e = ground arith
  in_app-of (some p) q e = ground arith

  in_app-true : (q : Quote) → is_of q ≡ true → in_app t (some q) ≡ some q
  unfolding is_of
  in_app-true q e = ground arith

  key_of : (q : Quote) → is_of q ≡ true → q.resource_key ≡ t.resource_key
  unfolding is_of
  key_of q e = ground arith

  confirmed_at : ℕ → Quote → Quote
  confirmed_at now q = record q { confirmed = some now }

  confirm_rows-HasLimit :
      (now by i : ℕ) (q : Quote) (bytes : ℕ) (qs : Table Quote) (db : Store)
      → q.resource_key ≡ t.resource_key
      → HasLimit t bytes qs db
      → HasLimit t q.limit_bytes (update i (confirmed_at now) qs) (confirm_rows now by i q db)
  unfolding confirmed_at
  confirm_rows-HasLimit now by i q bytes qs db key x = record {
    row = approve now by q x.row;
    there = ground (
      arith,
      find-update t.resource_key q.resource_key (approve now by q) db.limits,
      x.there,
      key,
    );
    size = refl;
    quoted = rw x.quoted refl;
  }

  restart-keeps : (b : Bool) (s : Start) (db : Store) → Ensures (λ _ d. d ≡ db) (restart b s db)
  restart-keeps true broken db = Ensures-err _ _ _
  restart-keeps true started db = Ensures-ok _ _ _ refl
  restart-keeps true refused db = Ensures-ok _ _ _ refl
  restart-keeps false s db = Ensures-ok _ _ _ refl

  module _ (now i : ℕ) (maximum : Option ℕ) (by : ℕ) (q : Quote) (db : Store)
      (there : quote_in t i db ≡ some q) (fine : is_approved maximum by q ≡ true) where
    Both : Limit → Store → Type 0
    Both l after = IsSettled i maximum by l after × IsConfirmed now i maximum by db l after

    confirmed-with :
        (l : Limit) (after : Store)
        → ((is_some q.confirmed ≡ true) × (after ≡ with_limit t db)) ⊎ IsRaised now q l db
        → IsConfirmed now i maximum by db l after
    confirmed-with l after o = record {
      quote = q;
      there = there;
      price = same-eq maximum (some q.max_extra_monthly_cents) (ground arith);
      creator = ground arith;
      outcome = o;
    }

    quote_after :
        (after : Store)
        → after.quotes ≡ update i (confirmed_at now) db.quotes
        → quote_in t i after ≡ some (confirmed_at now q)
    unfolding confirmed_at is_of
    quote_after after e =
        let of = in_app-of (find i db.quotes) q there in
        rw (e, find-update i i (confirmed_at now) db.quotes, ==_refl i, of.0)
          (in_app-true (confirmed_at now q) of.1)

    finish :
        (s : Store)
        → now ≤ q.expires
        → (limit_of t db).limit_bytes ≡ q.old_limit_bytes
        → HasLimit t q.limit_bytes (update i (confirmed_at now) db.quotes) s
        → Both (limit_of t s) s
    unfolding confirmed_at Both
    finish s time same x = (
      record {
        quote = confirmed_at now q;
        there = quote_after s x.quoted;
        approved = fine;
        done = refl;
        row = rw (limit_of-found t x.row s x.there) x.there;
      },
      confirmed-with _ s (
          inr (record {
            in_time = time;
            unchanged = same;
            size = ap (λ l. l.limit_bytes) (limit_of-found t x.row s x.there) ∙ x.size;
          })),
    )

    end :
        (s : Store)
        → now ≤ q.expires
        → (limit_of t db).limit_bytes ≡ q.old_limit_bytes
        → HasLimit t q.limit_bytes (update i (confirmed_at now) db.quotes) s
        → Both (limit_of t (with_limit t s)) (with_limit t s)
    end s time same x =
        subst (λ d. Both (limit_of t d) d) (sym (with_limit-found t x.row s x.there))
          (finish s time same x)

    confirm_open-Both :
        (h : Host) (placed : Placed) → Ensures Both (confirm_open now t h placed i by q db)
    confirm_open-Both h placed =
        let x = with_limit-HasLimit t db in
        let same_row = limit_of-found t x.row (with_limit t db) x.there in
        let key = key_of q (in_app-of (find i db.quotes) q there).1 in
        after_raise_if (ltb q.expires now) _ _ (λ late. after_modify (with_limit t) _ (
          after_gets (limit_of t) _ (
            after_raise_if _ _ _ (λ moved. after_or_raise placed _ _ (λ reading _.
              after_modify (confirm_rows now by i q) _ (
                Ensures-bind _ (
                  Ensures-map
                    (λ _ d e. Ensures-bind _ (
                      Ensures-map
                        (λ _ s k. after_modify (with_limit t) _ (
                          Ensures-ok _ _ _ (
                            end s (time_of q.expires now late)
                              (sym x.size
                                ∙ (sym (ap (λ l. l.limit_bytes) same_row) ∙ same_of _ _ moved))
                              k)))
                        (sample-HasLimit t now q.limit_bytes h reading _ d (
                          subst
                            (λ y.
                              HasLimit t q.limit_bytes (update i (confirmed_at now) db.quotes) y)
                            (sym e)
                            (confirm_rows-HasLimit now by i q _ db.quotes (with_limit t db) key
                              x)))))
                    (restart-keeps _ h.start (confirm_rows now by i q (with_limit t db))))))))))

  again-Both :
      (now i : ℕ) (maximum : Option ℕ) (by : ℕ) (q : Quote) (db : Store)
      (there : quote_in t i db ≡ some q) (fine : is_approved maximum by q ≡ true)
      → is_some q.confirmed ≡ true
      → Both now i maximum by q db there fine (limit_of t (with_limit t db)) (with_limit t db)
  unfolding Both
  again-Both now i maximum by q db there fine done =
      let x = with_limit-HasLimit t db in
      (
        record {
          quote = q;
          there = ap (λ qs. in_app t (find i qs)) x.quoted ∙ there;
          approved = fine;
          done = done;
          row = rw (limit_of-found t x.row (with_limit t db) x.there) x.there;
        },
        confirmed-with now i maximum by q db there fine _ (with_limit t db) (inl (done, refl)),
      )

  confirm-Both :
      (now i : ℕ) (h : Host) (placed : Placed) (maximum : Option ℕ) (by : ℕ) (db : Store)
      → Ensures
          (λ l s. IsSettled i maximum by l s × IsConfirmed now i maximum by db l s)
          (confirm now t h placed i maximum by db)
  unfolding confirm Both
  confirm-Both now i h placed maximum by db = after_fetch (quote_in t i) _ _ (λ q there.
      after_raise_if (not (is_approved maximum by q)) _ _
        (λ e. go q there (is_fine _ e) (is_some q.confirmed) refl))
    where
      is_fine : (b : Bool) → not b ≡ false → b ≡ true
      is_fine b e = ground arith

      go :
          (q : Quote)
          → quote_in t i db ≡ some q
          → is_approved maximum by q ≡ true
          → (b : Bool) → is_some q.confirmed ≡ b
          → Ensures
              (λ l s. IsSettled i maximum by l s × IsConfirmed now i maximum by db l s)
              (confirm_by b now t h placed i by q db)
      go q there fine true e =
          after_modify (with_limit t) _
            (Ensures-ok _ _ _ (again-Both now i maximum by q db there fine e))
      go q there fine false e = confirm_open-Both now i maximum by q db there fine h placed

  settled_again :
      (later i : ℕ) (h : Host) (placed : Placed) (maximum : Option ℕ) (by : ℕ) (l : Limit)
      (db : Store)
      → IsSettled i maximum by l db
      → confirm later t h placed i maximum by db ≡ ok l db
  unfolding confirm ◌>>=◌
  settled_again later i h placed maximum by l db x =
      rw (x.there, x.approved, x.done, with_limit-found t l db x.row, limit_of-found t l db x.row)
        refl

-- A confirmation that returns is of a quote of the app, made by the same person, at the same price: the
-- quote was confirmed already, and nothing but a missing row of the app is added, or it had not
-- expired, the limit was still the one that it was made for, and is now the one that it names.
pub confirm-IsConfirmed :
    (now i : ℕ) (t : Tool) (h : Host) (placed : Placed) (maximum : Option ℕ) (by : ℕ) (db : Store)
    → Ensures
        (λ l s. IsConfirmed t now i maximum by db l s)
        (confirm now t h placed i maximum by db)
confirm-IsConfirmed now i t h placed maximum by db =
    Ensures-map (λ l s x. x.1) (confirm-Both t now i h placed maximum by db)

-- When a confirmation has returned, confirming the quote again, at whatever time and whatever the
-- storage service and the host answer, returns the same row and changes nothing.
pub confirm_once :
    (now i : ℕ) (t : Tool) (h : Host) (placed : Placed) (maximum : Option ℕ) (by : ℕ) (db : Store)
    → Ensures
        (λ l s. (later : ℕ) (g : Host) (p : Placed) → confirm later t g p i maximum by s ≡ ok l s)
        (confirm now t h placed i maximum by db)
confirm_once now i t h placed maximum by db =
    Ensures-map (λ l s x later g p. settled_again t later i g p maximum by l s x.0)
      (confirm-Both t now i h placed maximum by db)
