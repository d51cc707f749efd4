-- ===== src/Storage/Guarantee/Methods.antt =====
-- The other methods of a worker and of the recovery pass in internal/storage/postgres/repository.go.
use currency_quotes_service.Prelude.{ℕ, ◌≡◌, [], ◌∷◌, ltb, Text, Bool-cases, inl, inr}
use currency_quotes_service.Domain.Errors.{ok}
use currency_quotes_service.Domain.Task.{UpdateTask}
use currency_quotes_service.Storage.Schema.{Db, max_smallint}
use currency_quotes_service.Storage.World.{World, Tx, begin, query, commit, wrap, give}
use currency_quotes_service.Storage.Repository.{
  claim_call, fail_call, release_call, release_in, abandon_in, commit_counts, abandon_rest,
  with_smallint, release_first, claim_task, fail_task, release_task, release_stuck_tasks,
}
use currency_quotes_service.Storage.Invariant.{Inv}
use currency_quotes_service.Storage.Guarantee.{
  Evolves, Evolves-trans, Rely, Good-refl, Outcome, bind-Safe,
}
use currency_quotes_service.Storage.Guarantee.Calls.{Sees}
use currency_quotes_service.Storage.Guarantee.Statements.{
  Holds, claim_oldest-Keeps, release_held-Keeps, fail_held-Keeps, release_stale-Keeps,
  abandon_stale-Keeps,
}
use currency_quotes_service.Storage.Guarantee.Steps.{
  Nothing, call-Safe, finalise-Safe, begin_call-Safe, query_call-Safe, commit_call-Safe,
}

module _ (w : World) (rely : Rely w.script) (v : Inv w.db) where
  -- From tables that keep the invariant, and as long as others keep it and move the tables forward
  -- only, so does `ClaimTask`, on every path; a task that it answers stands in the table, held under
  -- the attempt that it was answered with.
  pub claim_task-Safe : Outcome w (claim_task w) (λ t w'. Holds t w'.db)
  unfolding claim_task
  claim_task-Safe =
      call-Safe w rely v claim_call Holds
        (λ d h. claim_oldest-Keeps (w.script w.at).now (w.script w.at).locked d h.inv)

  -- From tables that keep the invariant, and as long as others keep it and move the tables forward
  -- only, so does `ReleaseTask`, for any claim and on every path.
  pub release_task-Safe : (claim : UpdateTask) → Outcome w (release_task claim w) Nothing
  unfolding release_task
  release_task-Safe claim =
      finalise-Safe w rely v (release_call claim)
        (λ d h. (release_held-Keeps (w.script w.at).now claim.id claim.attempts d h.inv, tt))

  -- From tables that keep the invariant, and as long as others keep it and move the tables forward
  -- only, so does `FailTask`, for any claim and any reason and on every path.
  pub fail_task-Safe :
      (claim : UpdateTask) (reason : Text) → Outcome w (fail_task claim reason w) Nothing
  unfolding fail_task
  fail_task-Safe claim [] = (Good-refl w v, tt)
  fail_task-Safe claim (c ∷ reason) =
      finalise-Safe w rely v (fail_call claim (c ∷ reason))
        (λ d h. (fail_held-Keeps (w.script w.at).now claim.id claim.attempts c reason d h.inv, tt))

sees_smallint :
    (n : ℕ) (r : ℕ × Db) (d : Db) → Evolves d r.1 → Sees (with_smallint n r) (λ _ d'. Evolves d d')
sees_smallint n r d h = elim (Bool-cases (ltb max_smallint n)) [
  | inl over ↦ rw over tt
  | inr fits ↦ rw fits h
]

module _ (older_than max_attempts c : ℕ) (reason : Text) where
  commit_counts-Safe :
      (w : World) (released abandoned : ℕ) (tx : Tx)
      → Rely w.script
      → Inv w.db
      → Evolves w.db tx.view
      → Outcome w (commit_counts released (abandoned, tx) w) Nothing
  commit_counts-Safe w released abandoned tx rely v h =
      bind-Safe w rely (wrap (commit tx)) (λ _. give (ok (released, abandoned)))
        (λ _ w'. w'.db ≡ tx.view) Nothing (commit_call-Safe w rely v tx h)
        (λ _ w' g r q. (Good-refl w' g.evolves.inv, tt))

  abandon_rest-Safe :
      (w : World) (tx tx' : Tx) (released : ℕ)
      → Rely w.script
      → Inv w.db
      → Evolves w.db tx'.view
      → Outcome w (abandon_rest tx older_than max_attempts (c ∷ reason) (released, tx') w) Nothing
  abandon_rest-Safe w tx tx' released rely v h =
      bind-Safe w rely (wrap (query (abandon_in tx older_than max_attempts (c ∷ reason)) tx'))
        (commit_counts released)
        (λ (_, tx'') w'. Evolves tx'.view tx''.view × (w'.db ≡ w.db) × (tx''.started ≡ tx'.started))
        Nothing
        (query_call-Safe w rely v (abandon_in tx older_than max_attempts (c ∷ reason)) tx'
          (λ _ d'. Evolves tx'.view d')
          (sees_smallint max_attempts _ tx'.view
            (abandon_stale-Keeps tx.started older_than max_attempts c reason tx'.view h.inv)))
        (λ (abandoned, tx'') w' g r q.
          commit_counts-Safe w' released abandoned tx'' r g.evolves.inv
            (rw q.1 (Evolves-trans w.db tx'.view tx''.view h q.0)))

  release_first-Safe :
      (w : World) (tx : Tx)
      → Rely w.script
      → Inv w.db
      → tx.view ≡ w.db
      → Outcome w (release_first older_than max_attempts (c ∷ reason) tx w) Nothing
  release_first-Safe w tx rely v e =
      bind-Safe w rely (wrap (query (release_in tx older_than max_attempts) tx))
        (abandon_rest tx older_than max_attempts (c ∷ reason))
        (λ (_, tx') w'. Evolves tx.view tx'.view × (w'.db ≡ w.db) × (tx'.started ≡ tx.started))
        Nothing
        (query_call-Safe w rely v (release_in tx older_than max_attempts) tx
          (λ _ d'. Evolves tx.view d')
          (sees_smallint max_attempts _ tx.view
            (release_stale-Keeps tx.started older_than max_attempts tx.view (rw e v))))
        (λ (released, tx') w' g r q.
          abandon_rest-Safe w' tx tx' released r g.evolves.inv (rw (q.1, ← e) q.0))

  release_some-Safe :
      (w : World)
      → Rely w.script
      → Inv w.db
      → Outcome w (release_stuck_tasks older_than max_attempts (c ∷ reason) w) Nothing
  unfolding release_stuck_tasks
  release_some-Safe w rely v =
      bind-Safe w rely (wrap begin) (release_first older_than max_attempts (c ∷ reason))
        (λ tx w'. tx.view ≡ w'.db) Nothing (begin_call-Safe w rely v)
        (λ tx w' g r q. release_first-Safe w' tx r g.evolves.inv q)

-- From tables that keep the invariant, and as long as others keep it and move the tables forward
-- only, so does `ReleaseStuckTasks`, for any threshold, bound and reason and on every path.
pub release_stuck_tasks-Safe :
    (w : World) (older_than max_attempts : ℕ) (reason : Text)
    → Rely w.script
    → Inv w.db
    → Outcome w (release_stuck_tasks older_than max_attempts reason w) Nothing
unfolding release_stuck_tasks
release_stuck_tasks-Safe w older_than max_attempts [] rely v = (Good-refl w v, tt)
release_stuck_tasks-Safe w older_than max_attempts (c ∷ reason) rely v =
    release_some-Safe older_than max_attempts c reason w rely v
