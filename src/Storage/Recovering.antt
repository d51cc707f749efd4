-- ===== src/Storage/Recovering.antt =====
-- `ReleaseStuckTasks` of internal/storage/postgres/repository.go, as one map of the rows.
use currency_quotes_service.Prelude.{
  ℕ, ◌+◌, ◌≡◌, refl, ◌⊎◌, Bool, ◌&&◌, List, [], ◌∷◌, some, Text, ltb, leb, if◌then◌else◌, map,
  count_if, arith,
}
use currency_quotes_service.Domain.Errors.{Result, ok, err}
use currency_quotes_service.Domain.Task.{pending, failed}
use currency_quotes_service.Storage.Schema.{Row, Db}
use currency_quotes_service.Storage.Statements.{
  is_stale, touch, update, release_stale, abandon_stale,
}
use currency_quotes_service.Storage.World.{World, turn, begin, query, commit, execute}
use currency_quotes_service.Storage.Repository.{release_stuck_tasks}
use currency_quotes_service.Storage.Finalising.{IsOk}

-- What a pass at the time `now` makes of one row.
abbrev pub recover : ℕ → ℕ → ℕ → Text → Row → Row
recover now older_than max_attempts reason r =
    if is_stale now older_than r
    then (if ltb r.attempts max_attempts
        then record r { status = pending; updated_at = now }
        else record r { status = failed; error = some reason; updated_at = now })
    else r

module _ (now older_than max_attempts : ℕ) (reason : Text) where
  abbrev pub recovered : Db → Db
  recovered d = record d { tasks = map (recover now older_than max_attempts reason) d.tasks }

  abbrev pub both : Db → Db
  both d =
      (abandon_stale now older_than max_attempts reason
        (release_stale now older_than max_attempts d).1).1

  abbrev releases : Row → Bool
  releases r = is_stale now older_than r && ltb r.attempts max_attempts

  abbrev abandons : Row → Bool
  abandons r = is_stale now older_than r && leb max_attempts r.attempts

  abbrev released : Row → Row
  released = touch releases (λ r. record r { status = pending; updated_at = now })

  abbrev abandoned : Row → Row
  abandoned =
      touch abandons (λ r. record r { status = failed; error = some reason; updated_at = now })

  rows_recovered :
      (rs : List Row)
      → map abandoned (map released rs) ≡ map (recover now older_than max_attempts reason) rs
  rows_recovered [] = refl
  rows_recovered (r ∷ rs) = ground (arith, rows_recovered rs)

  pub both-recovered : (d : Db) → both d ≡ recovered d
  unfolding update
  both-recovered d = ground (arith, rows_recovered d.tasks)

  counts :
      (rs : List Row)
      → count_if releases rs + count_if abandons (map released rs)
        ≡ count_if (is_stale now older_than) rs
  unfolding count_if
  counts [] = omega arith
  counts (r ∷ rs) = ground (arith, counts rs)

-- Two numbers that were answered, and their sum.
abbrev pub AddUp : Result (ℕ × ℕ) → ℕ → Type 0
AddUp (ok (n, m)) total = n + m ≡ total
AddUp (err e) total = Unit

-- A pass that is given a reason does nothing and answers an error, or returns every row that has been
-- in progress for too long to the queue, if it was claimed less than `max_attempts` times, and fails
-- it with the reason otherwise, and touches no other row; the numbers that it answers are together
-- that of the rows in progress for too long.
pub release_stuck_tasks-partition :
    (older_than max_attempts c : ℕ) (reason : Text) (w : World)
    → let r = release_stuck_tasks older_than max_attempts (c ∷ reason) w in
      let d = (turn w).others w.db in
      let now = (turn w).now in
      ((r.1.db ≡ d) × (¬ IsOk r.0))
      ⊎ ((r.1.db ≡ recovered now older_than max_attempts (c ∷ reason) d)
          × AddUp r.0 (count_if (is_stale now older_than) d.tasks))
unfolding release_stuck_tasks begin query commit execute update
release_stuck_tasks-partition older_than max_attempts c reason w = ground (
  arith,
  both-recovered (turn w).now older_than max_attempts (c ∷ reason) ((turn w).others w.db),
  counts (turn w).now older_than max_attempts (c ∷ reason) ((turn w).others w.db).tasks,
)
