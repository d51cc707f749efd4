-- ===== src/Storage/Guarantee/Completion.antt =====
-- `CompleteTask` of internal/storage/postgres/repository.go, step by step.
use currency_quotes_service.Prelude.{ℕ, ◌≡◌, ◌≢◌, refl, Option, none, some}
use currency_quotes_service.Domain.Task.{UpdateTask}
use currency_quotes_service.Storage.Schema.{Db}
use currency_quotes_service.Storage.Statements.{close_task, insert_quote}
use currency_quotes_service.Storage.World.{World, Tx, ◌>>=◌, begin, query, commit, wrap, give}
use currency_quotes_service.Storage.Repository.{
  Decimals, close_in, stored, close_and_insert, insert_quote_in, insert_and_commit, unless_stale,
  complete_task,
}
use currency_quotes_service.Storage.Invariant.{Inv, Known}
use currency_quotes_service.Storage.Progress.{Known-Progress}
use currency_quotes_service.Storage.Guarantee.{Evolves, Rely, Outcome, bind-Safe}
use currency_quotes_service.Storage.Guarantee.Calls.{Sees}
use currency_quotes_service.Storage.Guarantee.Statements.{complete-Keeps}
use currency_quotes_service.Storage.Guarantee.Steps.{
  Nothing, unless_stale-Safe, forget, begin_call-Safe, query_call-Safe, commit_call-Safe,
}

-- The completion of a claim whose task is known.
module _ (decimals : Decimals) (claim : UpdateTask) (rate : decimals.Decimal)
    (rate_date fetched_at : ℕ) where
  insert_sees :
      (now : ℕ) (d : Db) (r : Option Db)
      → insert_quote claim.id claim.pair
          (decimals.to_numeric rate)
          rate_date
          fetched_at
          (close_task now claim.id claim.attempts d).1
        ≡ r
      → (close_task now claim.id claim.attempts d).0 ≢ 0
      → Known claim.id claim.pair d
      → Inv d
      → Sees (stored decimals r) (λ _ d'. Evolves d d')
  insert_sees now d none e n k v = tt
  insert_sees now d (some d') e n k v =
      complete-Keeps now claim.id claim.attempts claim.pair (decimals.to_numeric rate) rate_date
        fetched_at d d' n e k v

  insert_and_commit-Safe :
      (w : World) (now n : ℕ) (tx : Tx)
      → Rely w.script
      → Inv w.db
      → Known claim.id claim.pair w.db
      → (n ≡ (close_task now claim.id claim.attempts w.db).0)
        × (tx.view ≡ (close_task now claim.id claim.attempts w.db).1)
      → Outcome w (insert_and_commit decimals claim rate rate_date fetched_at (n, tx) w) Nothing
  insert_and_commit-Safe w now n tx rely v k e =
      bind-Safe w rely (give (unless_stale n))
        (λ _. wrap (query (insert_quote_in decimals claim rate rate_date fetched_at) tx) >>= λ i.
          wrap (commit i.1))
        (λ _ w'. (n ≢ 0) × (w'.db ≡ w.db)) Nothing (unless_stale-Safe w n v)
        λ _ w' g r q.
          bind-Safe w' r
            (wrap (query (insert_quote_in decimals claim rate rate_date fetched_at) tx))
            (λ i. wrap (commit i.1))
            (λ (_, tx') w''. Evolves w'.db tx'.view × (w''.db ≡ w'.db) × (tx'.started ≡ tx.started))
            Nothing
            (query_call-Safe w' r g.evolves.inv
              (insert_quote_in decimals claim rate rate_date fetched_at) tx
              (λ _ d'. Evolves w'.db d')
              (rw (e.1, q.1) (insert_sees now w.db _ refl (rw (← e.0) q.0) k v)))
            λ i w'' g' r' q'.
              forget w'' _ _ (commit_call-Safe w'' r' g'.evolves.inv i.1 (rw q'.1 q'.0))

  close_and_insert-Safe :
      (w : World) (tx : Tx)
      → Rely w.script
      → Inv w.db
      → Known claim.id claim.pair w.db
      → tx.view ≡ w.db
      → Outcome w (close_and_insert decimals claim rate rate_date fetched_at tx w) Nothing
  close_and_insert-Safe w tx rely v k e =
      bind-Safe w rely (wrap (query (close_in tx claim) tx))
        (insert_and_commit decimals claim rate rate_date fetched_at)
        (λ (n, tx') w'.
          ((n ≡ (close_task tx.started claim.id claim.attempts w.db).0)
            × (tx'.view ≡ (close_task tx.started claim.id claim.attempts w.db).1))
          × (w'.db ≡ w.db)
          × (tx'.started ≡ tx.started))
        Nothing
        (query_call-Safe w rely v (close_in tx claim) tx
          (λ n d'.
            (n ≡ (close_task tx.started claim.id claim.attempts w.db).0)
            × (d' ≡ (close_task tx.started claim.id claim.attempts w.db).1))
          (rw e (refl, refl)))
        λ (n, tx') w' g r q.
          insert_and_commit-Safe w' tx.started n tx' r g.evolves.inv (rw q.1 k) (rw q.1 q.0)

  -- From tables that keep the invariant, and as long as others keep it and move the tables forward
  -- only, so does `CompleteTask` for a claim whose identifier and pair are those of a stored task,
  -- on every path.
  pub complete_task-Safe :
      (w : World)
      → Rely w.script
      → Inv w.db
      → Known claim.id claim.pair w.db
      → Outcome w (complete_task decimals claim rate rate_date fetched_at w) Nothing
  unfolding complete_task
  complete_task-Safe w rely v k =
      bind-Safe w rely (wrap begin) (close_and_insert decimals claim rate rate_date fetched_at)
        (λ tx w'. tx.view ≡ w'.db) Nothing (begin_call-Safe w rely v)
        λ tx w' g r q.
          close_and_insert-Safe w' tx r g.evolves.inv
            (Known-Progress claim.id claim.pair w.db w'.db g.evolves.progress k) q
