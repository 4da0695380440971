-- ===== src/Tests/Resources.antt =====
-- The storage limit of an app: control/app/resources.py.
use boathouse_cloud.Prelude.{ℕ, ◌*◌, ◌≡◌, refl, Option, none, some, true, false, List, [], ◌∷◌}
use boathouse_cloud.Prelude.Exec.{Run, ok, final, ◌>>=◌, Ensures}
use boathouse_cloud.Resources.Store.{Store, Tool, gib, with_limit, limit_of, Notification}
use boathouse_cloud.Resources.Sample.{Reading, Host, started, sample}
use boathouse_cloud.Resources.Capacity.{quote, confirm}
use boathouse_cloud.Resources.Approved.{IsConfirmed, confirm-IsConfirmed, confirm_once}

abbrev tool : Tool
tool = record { resource_key = 5; workspace_id = 1 }

abbrev host : Host
host = record { owners = 3 ∷ []; is_paused = false; start = started }

abbrev empty_tables : Store
empty_tables = record { limits = []; quotes = []; notifications = [] }

-- The shares of three gigabytes and of a thousand files.
abbrev used : ℕ → Reading
used bytes = record {
  storage_bytes = bytes;
  limit_bytes = 3 * gib;
  inodes = 10;
  inode_limit = 1000;
  memory_bytes = none;
  is_busy = false;
}

abbrev quoted : Store
quoted = final (quote 100 true 10 tool (some 3) 3 40 empty_tables)

abbrev size_after : {E A : Type 0} → Run Store E A → ℕ
size_after r = (limit_of tool (final r)).limit_bytes

raised_to_three :
    size_after (confirm 200 tool host (some (used 1000)) 40 (some 50) 3 quoted) ≡ 3 * gib
unfolding confirm quote sample with_limit limit_of ◌>>=◌
raised_to_three = refl

too_late : size_after (confirm 2000 tool host (some (used 1000)) 40 (some 50) 3 quoted) ≡ gib
unfolding confirm quote sample with_limit limit_of ◌>>=◌
too_late = refl

too_dear : size_after (confirm 200 tool host (some (used 1000)) 40 (some 49) 3 quoted) ≡ gib
unfolding confirm quote sample with_limit limit_of ◌>>=◌
too_dear = refl

-- Usage that reaches the limit pauses the app and tells its owner once.
abbrev told : Store → List Notification
told s = s.notifications

full_twice :
    told (
      final (
        sample 400 tool host
          (used (3 * gib))
          (final (sample 300 tool host (used (3 * gib)) quoted))))
    ≡ record { resource_key = 5; level = 100; email = 3; created = 300 } ∷ []
unfolding confirm quote sample with_limit limit_of ◌>>=◌
full_twice = refl

confirm-IsConfirmed_example :
    Ensures
      (λ l s. IsConfirmed tool 200 40 (some 50) 3 quoted l s)
      (confirm 200 tool host (some (used 1000)) 40 (some 50) 3 quoted)
confirm-IsConfirmed_example =
    confirm-IsConfirmed 200 40 tool host (some (used 1000)) (some 50) 3 quoted

confirm_once_example :
    Ensures
      (λ l s.
        (later : ℕ) (g : Host) (p : Option Reading)
        → confirm later tool g p 40 (some 50) 3 s ≡ ok l s)
      (confirm 200 tool host (some (used 1000)) 40 (some 50) 3 quoted)
confirm_once_example = confirm_once 200 40 tool host (some (used 1000)) (some 50) 3 quoted
