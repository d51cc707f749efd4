-- ===== src/System/Promise/Recovered.antt =====
-- From a task whose worker is gone to the answer of its client: the recovery and the worker of
-- internal/worker, the tables of internal/storage/postgres and GET /quotes/updates/{id} of internal/api
-- together.
use currency_quotes_service.Prelude.{
  In-map, ℕ, ◌≤◌, ◌<◌, ◌≡◌, sym, ap, subst, ◌∙◌, inl, inr, Bool, true, List, ◌∷◌, some, Text,
  length, In, All, arith,
}
use currency_quotes_service.Domain.Errors.{ok}
use currency_quotes_service.Domain.Task.{is_pending}
use currency_quotes_service.Storage.Schema.{Row, Db}
use currency_quotes_service.Storage.Statements.{is_stale}
use currency_quotes_service.Storage.World.{World, answered, turn}
use currency_quotes_service.Storage.Repository.{Decimals, release_stuck_tasks}
use currency_quotes_service.Storage.Invariant.{Inv}
use currency_quotes_service.Storage.Finalising.{IsOk}
use currency_quotes_service.Storage.Recovering.{recover, recovered, release_stuck_tasks-partition}
use currency_quotes_service.Service.{State}
use currency_quotes_service.Api.{Wire}
use currency_quotes_service.Worker.Guarantee.{storage}
use currency_quotes_service.Worker.Loop.{Round, Reports, run}
use currency_quotes_service.Worker.Draining.{waiting, Room, Quiet}
use currency_quotes_service.Worker.Draining.Rounds.{Fair}
use currency_quotes_service.Worker.Serving.Rounds.{Answered}
use currency_quotes_service.System.{Reach, Reach-Step, recovers}
use currency_quotes_service.System.Steps.{Reach-Evolves}
use currency_quotes_service.System.Promise.{SeenDone, get_quote_update-promised}

-- A pass that is answered has done all of its work.
passed :
    (older_than max_attempts released abandoned c : ℕ) (reason : Text) (w w' : World)
    → release_stuck_tasks older_than max_attempts (c ∷ reason) w ≡ (ok (released, abandoned), w')
    → w'.db ≡ recovered (turn w).now older_than max_attempts (c ∷ reason) ((turn w).others w.db)
passed older_than max_attempts released abandoned c reason w w' e =
    elim (release_stuck_tasks-partition older_than max_attempts c reason w) [
      | inl h ↦ absurd (h.1 (subst (λ x. IsOk x.0) (sym e) tt))
      | inr h ↦ sym (ap (λ x. x.1.db) e) ∙ h.0
    ]

recover-pending :
    (now older_than max_attempts : ℕ) (reason : Text) (r : Row)
    → is_stale now older_than r ≡ true
    → r.attempts < max_attempts
    → let r' = recover now older_than max_attempts reason r in
      (is_pending r'.status ≡ true) × (r'.id ≡ r.id) × (r'.pair ≡ r.pair)
recover-pending now older_than max_attempts reason r stale few = ground arith

module _ (decimals : Decimals) (ttl : ℕ) (wire : Wire decimals.Decimal) (wide : ℕ → ℕ)
    (reads : (n : ℕ) → 0 < n → (x : decimals.Decimal) × (decimals.of_numeric n ≡ some x)) where
  -- A task that has been in progress for longer than the threshold, and was claimed fewer times than
  -- the limit, is answered after a pass of the recovery that is answered, by GET /quotes/updates/{id},
  -- with the status done and a rate: after as many rounds of a worker as there are pending tasks then,
  -- and any steps of the service after them, where the provider answers each time with a rate that the
  -- column of the quotes takes, nobody else changes or locks the tables during the rounds, every call of
  -- the database is answered, no pending task has been claimed as often as the column can count, no
  -- round is cut short by the context, and the decimal library reads every positive rate back; from
  -- tables that keep the invariant when the pass meets them.
  pub get_quote_update-recovered :
      (older_than max_attempts released abandoned c : ℕ) (reason : Text) (attempts interval : ℕ)
      (rounds : List (Round decimals.Decimal)) (reports : Reports) (w w' : World) (r : Row)
      → Inv ((turn w).others w.db)
      → release_stuck_tasks older_than max_attempts (c ∷ reason) w ≡ (ok (released, abandoned), w')
      → In r ((turn w).others w.db).tasks
      → is_stale (turn w).now older_than r ≡ true
      → r.attempts < max_attempts
      → Quiet w'.script
      → Room w'.db
      → All Fair rounds
      → All (λ o. Answered decimals o.observed) rounds
      → waiting w'.db ≤ length rounds
      → (gone : Bool) (s : State World)
      → Reach
          (run (storage decimals) attempts interval rounds reports w').1.db
          ((turn s.store).others s.store.db)
      → (turn s.store).fate ≡ answered
      → SeenDone decimals ttl wire wide reads gone r.id r.pair s
  get_quote_update-recovered older_than max_attempts released abandoned c reason attempts interval
        rounds reports w w' r v e m stale few q room fair answers h gone s reach heard =
      let d = (turn w).others w.db in
      let now = (turn w).now in
      let same = passed older_than max_attempts released abandoned c reason w w' e in
      let r' = recover now older_than max_attempts (c ∷ reason) r in
      let (p, id, own) = recover-pending now older_than max_attempts (c ∷ reason) r stale few in
      let left : Inv w'.db =
        (Reach-Evolves (Reach-Step (recovers now older_than max_attempts c reason same)) v).inv in
      subst (λ i. SeenDone decimals ttl wire wide reads gone i r.pair s) id
        (subst (λ p. SeenDone decimals ttl wire wide reads gone r'.id p s) own
          (get_quote_update-promised decimals ttl wire wide reads attempts interval rounds reports
            w' q left room fair answers h r'
            (subst (λ (x : Db). In r' x.tasks) (sym same)
              (In-map (recover now older_than max_attempts (c ∷ reason)) r d.tasks m))
            p gone s reach heard))
