-- ===== src/Storage/Finalising.antt =====
-- Laws of `CompleteTask`, `FailTask` and `ReleaseTask` in internal/storage/postgres/repository.go: what
-- they write on every path.
use currency_quotes_service.Prelude.{
  ℕ, ◌≡◌, ◌≢◌, refl, ◌⊎◌, inl, inr, Bool, false, [], ◌∷◌, some, Text, any, count_if-any, List, map,
  arith,
}
use currency_quotes_service.Domain.Errors.{Result, ok, err}
use currency_quotes_service.Domain.Task.{UpdateTask, pending, failed}
use currency_quotes_service.Storage.Schema.{Row, Db}
use currency_quotes_service.Storage.Statements.{close_task, insert_quote, is_held, touch, update}
use currency_quotes_service.Storage.World.{World, turn, begin, query, commit, execute}
use currency_quotes_service.Storage.Repository.{Decimals, complete_task, fail_task, release_task}

abbrev pub IsOk : {A : Type 0} → Result A → Type 0
IsOk (ok a) = Unit
IsOk (err e) = ⊥

module _ (decimals : Decimals) (claim : UpdateTask) (rate : decimals.Decimal)
    (rate_date fetched_at : ℕ) where
  -- From the tables `d`, the claim was held, and the task is closed and its quote stored in `d'`.
  abbrev pub Completed : ℕ → Db → Db → Type 0
  Completed now d d' =
      ((close_task now claim.id claim.attempts d).0 ≢ 0)
      × (insert_quote claim.id claim.pair (decimals.to_numeric rate) rate_date fetched_at
            (close_task now claim.id claim.attempts d).1
          ≡ some d')

  -- `CompleteTask` leaves the tables as others have left them and answers an error, or it closes the
  -- task and stores the quote; it answers without an error only in the second case.
  pub complete_task-atomic :
      (w : World)
      → let r = complete_task decimals claim rate rate_date fetched_at w in
        ((r.1.db ≡ (turn w).others w.db) × (¬ IsOk r.0))
        ⊎ Completed (turn w).now ((turn w).others w.db) r.1.db
  unfolding complete_task begin query commit execute
  complete_task-atomic w = ground arith

  unheld-close :
      (now : ℕ) (d : Db)
      → any (is_held claim.id claim.attempts) d.tasks ≡ false
      → (close_task now claim.id claim.attempts d).0 ≡ 0
  unfolding update
  unheld-close now d e = count_if-any (is_held claim.id claim.attempts) d.tasks e

  -- A claim that is no longer held completes nothing: the tables stay as others have left them, and
  -- the answer is an error.
  pub complete_task-stale :
      (w : World)
      → any (is_held claim.id claim.attempts) ((turn w).others w.db).tasks ≡ false
      → let r = complete_task decimals claim rate rate_date fetched_at w in
        (r.1.db ≡ (turn w).others w.db) × (¬ IsOk r.0)
  complete_task-stale w e = elim (complete_task-atomic w) [
    | inl h ↦ h
    | inr h ↦ absurd (h.0 (unheld-close (turn w).now ((turn w).others w.db) e))
  ]

map-touch_none :
    (test : Row → Bool) (set : Row → Row) (rs : List Row)
    → any test rs ≡ false
    → map (touch test set) rs ≡ rs
unfolding any
map-touch_none test set [] e = refl
map-touch_none test set (r ∷ rs) e = ground (arith, map-touch_none test set rs)

-- An UPDATE of which no row passes the test.
update_none :
    (test : Row → Bool) (set : Row → Row) (d : Db)
    → any test d.tasks ≡ false
    → update test set d ≡ (0, d)
unfolding update
update_none test set d e = rw (count_if-any test d.tasks e, map-touch_none test set d.tasks e) refl

module _ (claim : UpdateTask) (w : World) where
  -- A claim that is no longer held gives nothing back to the queue: the tables stay as others have
  -- left them, and the answer is an error.
  pub release_task-stale :
      any (is_held claim.id claim.attempts) ((turn w).others w.db).tasks ≡ false
      → let r = release_task claim w in (r.1.db ≡ (turn w).others w.db) × (¬ IsOk r.0)
  unfolding release_task execute
  release_task-stale e = ground (
    arith,
    update_none (is_held claim.id claim.attempts)
        (λ r. record r { status = pending; updated_at = (turn w).now }) ((turn w).others w.db) e,
  )

  -- A claim that is no longer held fails nothing: the answer is an error, and the tables stay as they
  -- were or as others have left them.
  pub fail_task-stale :
      (reason : Text)
      → any (is_held claim.id claim.attempts) ((turn w).others w.db).tasks ≡ false
      → let r = fail_task claim reason w in
        (¬ IsOk r.0) × ((r.1.db ≡ w.db) ⊎ (r.1.db ≡ (turn w).others w.db))
  unfolding fail_task execute
  fail_task-stale [] e = ((λ h. h), inl refl)
  fail_task-stale (c ∷ reason) e = ground (
    arith,
    update_none (is_held claim.id claim.attempts)
        (λ r. record r { status = failed; error = some (c ∷ reason); updated_at = (turn w).now })
        ((turn w).others w.db) e,
  )
