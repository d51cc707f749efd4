-- ===== src/System/Recovery.antt =====
-- What the recovery of internal/worker/recovery.go gets done: no claim outlives a pass that is answered.
use currency_quotes_service.Prelude.{
  ℕ, ◌≡◌, refl, sym, subst, inl, inr, false, List, [], ◌∷◌, map, Text, any, arith,
}
use currency_quotes_service.Domain.Errors.{ok}
use currency_quotes_service.Storage.Schema.{Row}
use currency_quotes_service.Storage.Statements.{is_stale}
use currency_quotes_service.Storage.World.{World, turn}
use currency_quotes_service.Storage.Repository.{release_stuck_tasks}
use currency_quotes_service.Storage.Finalising.{IsOk}
use currency_quotes_service.Storage.Recovering.{recover, release_stuck_tasks-partition}

none_stale :
    (now older_than max_attempts : ℕ) (reason : Text) (rs : List Row)
    → any (is_stale now older_than) (map (recover now older_than max_attempts reason) rs) ≡ false
unfolding any
none_stale now older_than max_attempts reason [] = refl
none_stale now older_than max_attempts reason (r ∷ rs) =
    ground (arith, none_stale now older_than max_attempts reason rs)

-- After a pass of the recovery that is answered, no task has been in progress for longer than the
-- threshold, at the time of the pass and whatever others have committed before it.
pub release_stuck_tasks_clears :
    (older_than max_attempts released abandoned c : ℕ) (reason : Text) (w w' : World)
    → release_stuck_tasks older_than max_attempts (c ∷ reason) w ≡ (ok (released, abandoned), w')
    → any (is_stale (turn w).now older_than) w'.db.tasks ≡ false
release_stuck_tasks_clears older_than max_attempts released abandoned c reason w w' e =
    elim (release_stuck_tasks-partition older_than max_attempts c reason w) [
      | inl h ↦ absurd (h.1 (subst (λ x. IsOk x.0) (sym e) tt))
      | inr h ↦
          subst (λ x. any (is_stale (turn w).now older_than) x.1.db.tasks ≡ false) e
            (rw h.0 (
              none_stale (turn w).now older_than max_attempts (c ∷ reason)
                ((turn w).others w.db).tasks))
    ]
