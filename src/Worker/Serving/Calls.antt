-- ===== src/Worker/Serving/Calls.antt =====
-- The calls of internal/storage/postgres/repository.go that a worker makes, where every call is answered
-- and nobody else is there: each does all of its work.
use currency_quotes_service.Prelude.{
  ℕ, suc, ◌≡◌, ◌≢◌, refl, ap, ◌∙◌, ◌⊎◌, inl, inr, true, Option, none, some, Option-cases, ◌<◌,
  All-In, arith,
}
use currency_quotes_service.Domain.Errors.{ok}
use currency_quotes_service.Domain.Task.{UpdateTask, is_pending}
use currency_quotes_service.Storage.Schema.{Row, Db, scan_task, max_smallint}
use currency_quotes_service.Storage.Statements.{
  has_id, update, oldest_pending, claimed, claim_oldest, close_task, insert_quote,
}
use currency_quotes_service.Storage.World.{
  World, Turn, Tx, M, ◌>>=◌, turn, begin, query, commit, execute, wrap, wrapped_result, give,
}
use currency_quotes_service.Storage.Repository.{
  Decimals, claim_task, close_in, unless_stale, insert_quote_in, insert_and_commit,
  close_and_insert, complete_task,
}
use currency_quotes_service.Storage.Invariant.Claims.{oldest_pending-In}
use currency_quotes_service.Worker.Draining.{Quiet, Room}

-- A chain of calls after one that was answered.
bind_answered :
    {A B : Type 0} (m : M A) (f : A → M B) (w w' : World) (a : A)
    → m w ≡ (ok a, w')
    → (m >>= f) w ≡ f a w'
bind_answered m f w w' a e = rw e refl

wrap_answered :
    {A : Type 0} (m : M A) (w w' : World) (a : A) → m w ≡ (ok a, w') → wrap m w ≡ (ok a, w')
wrap_answered m w w' a e = ap wrapped_result e

module _ (w : World) (q : Quiet w.script) where
  begin-Quiet :
      wrap begin w
      ≡ (ok (record { view = w.db; started = (turn w).now }), record w { db = w.db; at = suc w.at })
  unfolding begin execute
  begin-Quiet = rw (q.heard w.at) (rw (q.alone w.at w.db) refl)

  query-Quiet :
      {A : Type 0} (s : Turn → Db → Option (A × Db)) (tx : Tx) (a : A) (d : Db)
      → s (turn w) tx.view ≡ some (a, d)
      → wrap (query s tx) w ≡ (ok (a, record tx { view = d }), record w { at = suc w.at })
  unfolding query
  query-Quiet s tx a d e = rw (q.heard w.at) (rw e refl)

  commit-Quiet : (tx : Tx) → wrap (commit tx) w ≡ (ok tt, record w { db = tx.view; at = suc w.at })
  unfolding commit
  commit-Quiet tx = rw (q.heard w.at) refl

  -- A claim takes a task, unless none is pending.
  pub claim_task-Quiet :
      Room w.db
      → (claim_task w ≡ (ok none, record w { db = w.db; at = suc w.at }))
        ⊎ ((r : Row) × (oldest_pending (turn w).locked w.db.tasks ≡ some r)
            × (claim_task w ≡ (
              ok (some (scan_task (claimed (turn w).now r))),
              record w { db = (update (has_id r.id) (claimed (turn w).now) w.db).1; at = suc w.at },
            )))
  unfolding claim_task execute claim_oldest
  claim_task-Quiet room = elim (Option-cases (oldest_pending (turn w).locked w.db.tasks)) [
    | inl nothing ↦
        inl (rw (q.heard w.at) (rw (q.alone w.at w.db) (rw (nothing, claim_oldest) refl)))
    | inr (r, found) ↦
        let (m, p, _) = oldest_pending-In (turn w).locked w.db.tasks r found in
        let small =
          All-In (λ r. is_pending r.status ≡ true → r.attempts < max_smallint) w.db.tasks r room m
            p in
        inr (
          r,
          found,
          rw (q.heard w.at)
              (rw (q.alone w.at w.db) (rw (found, claim_oldest) (ground (arith, small)))),
        )
  ]

module _ (decimals : Decimals) (claim : UpdateTask) (rate : decimals.Decimal)
    (rate_date fetched_at : ℕ) where
  abbrev closed_at : World → ℕ × Db
  closed_at w = close_task (turn w).now claim.id claim.attempts w.db

  insert_and_commit-Quiet :
      (w : World) (n : ℕ) (tx : Tx) (d : Db)
      → Quiet w.script
      → n ≢ 0
      → insert_quote claim.id claim.pair (decimals.to_numeric rate) rate_date fetched_at tx.view
        ≡ some d
      → insert_and_commit decimals claim rate rate_date fetched_at (n, tx) w
        ≡ (ok tt, record w { db = d; at = suc (suc w.at) })
  insert_and_commit-Quiet w n tx d q held e =
      bind_answered (give (unless_stale n))
        (λ _. wrap (query (insert_quote_in decimals claim rate rate_date fetched_at) tx) >>= λ i.
          wrap (commit i.1))
        w w tt (ground (arith, held))
      ∙ bind_answered (wrap (query (insert_quote_in decimals claim rate rate_date fetched_at) tx))
          (λ i. wrap (commit i.1)) w _ (tt, record tx { view = d })
          (query-Quiet w q (insert_quote_in decimals claim rate rate_date fetched_at) tx tt d
            (rw e refl))
      ∙ commit-Quiet (record w { at = suc w.at }) q (record tx { view = d })

  -- `CompleteTask` closes the task that is held, and stores a quote that the table takes.
  pub complete_task-Quiet :
      (w : World) (d : Db)
      → Quiet w.script
      → (closed_at w).0 ≢ 0
      → insert_quote claim.id claim.pair
          (decimals.to_numeric rate)
          rate_date
          fetched_at
          (closed_at w).1
        ≡ some d
      → complete_task decimals claim rate rate_date fetched_at w
        ≡ (ok tt, record w { db = d; at = suc (suc (suc (suc w.at))) })
  unfolding complete_task
  complete_task-Quiet w d q held e =
      let tx : Tx = record { view = w.db; started = (turn w).now } in
      let w' : World = record w { db = w.db; at = suc w.at } in
      let w'' : World = record w { db = w.db; at = suc (suc w.at) } in
      bind_answered (wrap begin) (close_and_insert decimals claim rate rate_date fetched_at) w w' tx
        (begin-Quiet w q)
      ∙ bind_answered (wrap (query (close_in tx claim) tx))
          (insert_and_commit decimals claim rate rate_date fetched_at) w' w''
          ((closed_at w).0, record tx { view = (closed_at w).1 })
          (query-Quiet w' q (close_in tx claim) tx (closed_at w).0 (closed_at w).1 refl)
      ∙ insert_and_commit-Quiet w'' (closed_at w).0 (record tx { view = (closed_at w).1 }) d q held
          e
