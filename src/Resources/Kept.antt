-- ===== src/Resources/Kept.antt =====
-- A sample keeps the limit of an app, and the quotes.
use boathouse_cloud.Prelude.{
  ℕ, ◌≡◌, refl, sym, subst, ◌∙◌, Bool, true, false, not, ◌&&◌, Option, none, some, arith, ltb, ◌==◌,
  List,
}
use boathouse_cloud.Prelude.Exec.{
  Ensures, Ensures-ok, Ensures-err, Ensures-map, Ensures-bind, after_modify, after_gets,
}
use boathouse_cloud.Prelude.Table.{Table, find, update, find-update, find-append}
use boathouse_cloud.Resources.Store.{
  Reason, Limit, Quote, Store, Tool, with_limit, limit_of, insert_over, limit_or, fresh_limit,
}
use boathouse_cloud.Resources.Sample.{
  Reading, Host, Start, started, refused, broken, level, resume, decide, write_sample, is_news,
  notify_if, record_sample, sample,
}

module _ (t : Tool) where
  -- The row of the app has this limit, and the quotes are these.
  pub record HasLimit (bytes : ℕ) (quotes : Table Quote) (db : Store) : Type 0 where
    pub row : Limit
    pub there : find t.resource_key db.limits ≡ some row
    pub size : row.limit_bytes ≡ bytes
    pub quoted : db.quotes ≡ quotes

  find-insert_over :
      (o : Option Limit) (ls : Table Limit)
      → find t.resource_key ls ≡ o
      → find t.resource_key (insert_over o t ls) ≡ some (limit_or t.workspace_id o)
  find-insert_over none ls e =
      ground (arith, find-append t.resource_key t.resource_key (fresh_limit t.workspace_id) ls)
  find-insert_over (some l) ls e = e

  pub with_limit-HasLimit :
      (db : Store) → HasLimit (limit_of t db).limit_bytes db.quotes (with_limit t db)
  unfolding with_limit limit_of
  with_limit-HasLimit db = record {
    row = limit_of t db;
    there = find-insert_over _ db.limits refl;
    size = refl;
    quoted = refl;
  }

  pub with_limit-found :
      (l : Limit) (db : Store) → find t.resource_key db.limits ≡ some l → with_limit t db ≡ db
  unfolding with_limit
  with_limit-found l db e = rw e refl

  pub limit_of-found :
      (l : Limit) (db : Store) → find t.resource_key db.limits ≡ some l → limit_of t db ≡ l
  unfolding limit_of
  limit_of-found l db e = rw e refl

  decide-keeps :
      (full paused low : Bool) (h : Host) (r o : Option Reason) (db : Store)
      → Ensures (λ _ s. s ≡ db) (decide full paused low h r o db)
  decide-keeps true paused low h r o db = Ensures-ok _ _ _ refl
  decide-keeps false true true h r o db = go h.is_paused h.start
    where
      go : (p : Bool) (s : Start) → Ensures (λ _ d. d ≡ db) (resume p s r db)
      go true s = Ensures-ok _ _ _ refl
      go false started = Ensures-ok _ _ _ refl
      go false refused = Ensures-ok _ _ _ refl
      go false broken = Ensures-err _ _ _
  decide-keeps false true false h r o db = Ensures-ok _ _ _ refl
  decide-keeps false false low h r o db = Ensures-ok _ _ _ refl

  notify_if-HasLimit :
      (b : Bool) (now lvl bytes : ℕ) (owners : List ℕ) (qs : Table Quote) (db : Store)
      → HasLimit bytes qs db
      → HasLimit bytes qs (notify_if b now t.resource_key lvl owners db)
  notify_if-HasLimit false now lvl bytes owners qs db h = h
  notify_if-HasLimit true now lvl bytes owners qs db h = record {
    row = h.row;
    there = h.there;
    size = h.size;
    quoted = h.quoted;
  }

  record_sample-HasLimit :
      (now bytes : ℕ) (h : Host) (r : Reading) (row : Limit) (s : Bool × Option Reason)
      (qs : Table Quote) (db : Store)
      → HasLimit bytes qs db
      → HasLimit bytes qs (record_sample now t h r row s db)
  record_sample-HasLimit now bytes h r row s qs db x =
      let written = record db {
        limits = update t.resource_key (write_sample now r row s) db.limits;
      } in
      let kept : HasLimit bytes qs written = record {
        row = write_sample now r row s x.row;
        there = ground (
          arith,
          find-update t.resource_key t.resource_key (write_sample now r row s) db.limits,
          x.there,
        );
        size = x.size;
        quoted = x.quoted;
      } in
      notify_if-HasLimit (not (level r == 100) && is_news s.1 row.reason) now 70 bytes h.owners qs _
        (notify_if-HasLimit (ltb row.last_warning (level r)) now (level r) bytes h.owners qs written
          kept)

  -- A sample leaves the limit and the quotes as they are.
  pub sample-HasLimit :
      (now bytes : ℕ) (h : Host) (r : Reading) (qs : Table Quote) (db : Store)
      → HasLimit bytes qs db
      → Ensures (λ _ s. HasLimit bytes qs s) (sample now t h r db)
  unfolding sample
  sample-HasLimit now bytes h r qs db x = after_modify (with_limit t) _ (
      after_gets (limit_of t) _ (
        Ensures-bind _ (
          Ensures-map
            (λ s d e. Ensures-ok _ _ _ (
              record_sample-HasLimit now bytes h r (limit_of t (with_limit t db)) s qs d
                (subst (λ y. HasLimit bytes qs y) (sym (e ∙ with_limit-found x.row db x.there)) x)))
            (decide-keeps _ _ _ h _ _ (with_limit t db)))))
