-- ===== src/Renewals/Credit.antt =====
-- The credit of a renewal: its ledger lines add up to minus its total exactly while its state holds
-- credit, and an identifier without a row has no sum.
use boathouse_cloud.Prelude.{
  ℕ, ◌≡◌, refl, Bool, true, false, ◌||◌, Option, none, some, List, [], ◌∷◌, ◌++◌, arith,
  if◌then◌else◌,
}
use boathouse_cloud.Prelude.Int.{ℤ, pos, neg, ◌+ℤ◌, +ℤ_zero}
use boathouse_cloud.Prelude.Table.{find, find-update, find-append}
use boathouse_cloud.Prelude.Table.Keys.{IsKeyed, update-IsKeyed, append-IsKeyed}
use boathouse_cloud.Db.{Db, Workspace, Renewal, RenewalState, Line, Ref, ref_eq}
use boathouse_cloud.Db.Ledger.{write_line, write_line-IsBalanced}
use boathouse_cloud.Db.Credit.{own_sum, own_sum-append, own_sum-charge_lines, charge_lines}
use boathouse_cloud.Billing.Post.Books.{same_books}
use boathouse_cloud.Purchases.Money.{is_own_ref, same_credit}
use boathouse_cloud.Purchases.Holding.{IsSound, same-IsSound, charge_lines-IsSound}
use boathouse_cloud.Renewals.Plan.{set_renewal}
use boathouse_cloud.Renewals.Reserve.{renewal_ref}
use boathouse_cloud.Renewals.Execute.{renewal_release_ref}

abbrev pub holds_renewal : RenewalState → Bool
holds_renewal RenewalState.processing = true
holds_renewal RenewalState.uncertain = true
holds_renewal RenewalState.renewed = true
holds_renewal _ = false

abbrev pub is_renewal_ref : ℕ → Ref → Bool
is_renewal_ref oid r = ref_eq (renewal_ref oid) r || ref_eq (renewal_release_ref oid) r

abbrev pub renewal_net : ℕ → List Line → ℤ
renewal_net oid = own_sum (is_renewal_ref oid)

abbrev pub owed : Option Renewal → ℤ
owed none = pos 0
owed (some r) = if holds_renewal r.state then neg r.total_cents else pos 0

-- The books and the purchases are sound, and every renewal, under its own identifier, has the credit of its state.
pub record IsFunded (db : Db) : Type 0 where
  pub sound : IsSound db
  pub keys : IsKeyed db.renewals
  pub at : (oid : ℕ) → renewal_net oid db.ledger ≡ owed (find oid db.renewals)

-- Nothing that it reads is changed.
pub same-IsFunded :
    {db after : Db}
    → after.workspaces ≡ db.workspaces
    → after.ledger ≡ db.ledger
    → after.purchases ≡ db.purchases
    → after.renewals ≡ db.renewals
    → IsFunded db
    → IsFunded after
same-IsFunded ws ls ps rs h = record {
  sound = same-IsSound ws ls ps h.sound;
  keys = rw rs h.keys;
  at = λ oid. rw (ls, rs) (h.at oid);
}

-- A change of a row that moves no credit.
pub keep-IsFunded :
    (oid : ℕ) (f : Renewal → Renewal) (db : Db)
    → ((r : Renewal) → find oid db.renewals ≡ some r → owed (some (f r)) ≡ owed (some r))
    → IsFunded db
    → IsFunded (set_renewal oid f db)
keep-IsFunded oid f db kept h = record {
  sound = same-IsSound refl refl refl h.sound;
  keys = update-IsKeyed oid f db.renewals h.keys;
  at = λ k. go k (find oid db.renewals) refl;
}
  where
    go :
        (k : ℕ) (o : Option Renewal)
        → find oid db.renewals ≡ o
        → renewal_net k db.ledger ≡ owed (find k (set_renewal oid f db).renewals)
    go k none e = ground (arith, find-update k oid f db.renewals, h.at k, h.at oid)
    go k (some r) e = ground (arith, find-update k oid f db.renewals, h.at k, h.at oid, kept r e)

-- A new row that holds no credit, under an identifier without a row.
pub insert-IsFunded :
    (oid : ℕ) (r : Renewal) (db : Db)
    → find oid db.renewals ≡ none
    → holds_renewal r.state ≡ false
    → IsFunded db
    → IsFunded (record db { renewals = db.renewals ++ (oid, r) ∷ [] })
insert-IsFunded oid r db free waits h = record {
  sound = same-IsSound refl refl refl h.sound;
  keys = append-IsKeyed oid r db.renewals free h.keys;
  at = λ k. ground (arith, find-append k oid r db.renewals, h.at k, free, waits);
}

pub charge_lines-IsFunded :
    (r : Ref) (db : Db) → IsFunded db → IsFunded (record db { ledger = charge_lines r db.ledger })
charge_lines-IsFunded r db h = record {
  sound = charge_lines-IsSound r db h.sound;
  keys = h.keys;
  at = λ oid. rw (own_sum-charge_lines (is_renewal_ref oid) r db.ledger) (h.at oid);
}

-- A line of a renewal is no line of a purchase.
other_line :
    (k : ℕ) (r : Ref) (l : Line) (db : Db)
    → l.ref ≡ some r
    → is_own_ref k r ≡ false
    → own_sum (is_own_ref k) (write_line l db).ledger ≡ own_sum (is_own_ref k) db.ledger
other_line k r l db named other =
    ground
      (arith, own_sum-append (is_own_ref k) db.ledger l, +ℤ_zero (own_sum (is_own_ref k) db.ledger))

-- A line of one renewal beside a change of its row.
pub move-IsFunded :
    (oid : ℕ) (o : Renewal) (f : Renewal → Renewal) (l : Line) (r : Ref) (ws : Workspace) (db : Db)
    → IsFunded db
    → find oid db.renewals ≡ some o
    → find l.workspace_id db.workspaces ≡ some ws
    → l.balance_after ≡ ws.balance_cents +ℤ l.amount_cents
    → l.ref ≡ some r
    → is_renewal_ref oid r ≡ true
    → r.name ≡ oid
    → ((k : ℕ) → is_own_ref k r ≡ false)
    → owed (some o) +ℤ l.amount_cents ≡ owed (some (f o))
    → IsFunded (set_renewal oid f (write_line l db))
move-IsFunded oid o f l r ws db h found there moved named own name other balanced = record {
  sound = record {
    books = same_books refl refl (write_line-IsBalanced l ws db h.sound.books there moved);
    credit = same_credit refl (λ k. other_line k r l db named (other k)) h.sound.credit;
  };
  keys = update-IsKeyed oid f db.renewals h.keys;
  at = λ k. ground (
    arith,
    find-update k oid f db.renewals,
    own_sum-append (is_renewal_ref k) db.ledger l,
    +ℤ_zero (renewal_net k db.ledger),
    h.at k,
    h.at oid,
  );
}
