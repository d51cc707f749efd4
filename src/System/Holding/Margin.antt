-- ===== src/System/Holding/Margin.antt =====
-- The settings of internal/config under which a worker that keeps to its deadline does not lose its
-- claim to the recovery.
use mathlib.Core.Bool.{false≢true}
use currency_quotes_service.Prelude.{
  ℕ, ◌+◌, ◌*◌, ◌≤◌, ◌≡◌, ◌≢◌, sym, ◌∙◌, any-In, false, [], ◌∷◌, some, none, refl, pos_part,
  max_int64, any-map, In-any, In, count_if-zero, Text, arith,
}
use currency_quotes_service.Domain.Errors.{Result, ok, err, is, stale_claim}
use currency_quotes_service.Domain.Task.{UpdateTask, pending, done, failed}
use currency_quotes_service.Storage.Schema.{Row, Db, scan_task}
use currency_quotes_service.Storage.Statements.{has_id, update, claimed, is_held}
use currency_quotes_service.Storage.World.{World, turn, execute, begin, query, commit}
use currency_quotes_service.Storage.Repository.{
  Decimals, claim_task, complete_task, fail_task, release_task,
}
use currency_quotes_service.Storage.Invariant.{Inv}
use currency_quotes_service.Storage.Claiming.{claim_task-Claimed}
use currency_quotes_service.Config.Env.{Environment, Parsers, loaded}
use currency_quotes_service.Config.{Config, load}
use currency_quotes_service.Config.Validity.{stuck_margin}
use currency_quotes_service.System.Running.{setup_of}
use currency_quotes_service.System.Holding.{Running, Spared, Spared-Running}

-- A finalisation that was not refused as one of a lost claim.
abbrev pub Unlost : Result (Unit {0}) → Type 0
Unlost (ok _) = Unit
Unlost (err e) = is stale_claim e ≡ false

claimed-Running :
    (now : ℕ) (d d' : Db) (r : Row) (t : UpdateTask)
    → In r d.tasks
    → t ≡ scan_task (claimed now r)
    → d' ≡ (update (has_id r.id) (claimed now) d).1
    → Running t.id t.attempts now d'
unfolding update
claimed-Running now d d' r t m e same =
    rw (same, e) (any-map _ _ d.tasks ∙ In-any _ r d.tasks m (ground arith))

-- A claim is taken at the time of its call.
claim_task-Running :
    (w w' : World) (t : UpdateTask)
    → claim_task w ≡ (ok (some t), w')
    → Running t.id t.attempts (turn w).now w'.db
claim_task-Running w w' t e =
    let (r, m, _, _, answer, same) = claim_task-Claimed w w' (some t) e in
    claimed-Running (turn w).now ((turn w).others w.db) w'.db r t m answer same

-- What an UPDATE of a held row affects.
update_held :
    (id attempts since : ℕ) (set : Row → Row) (d : Db)
    → Running id attempts since d
    → (update (is_held id attempts) set d).0 ≢ 0
unfolding update
update_held id attempts since set d h e =
    let (r, m, own) = any-In _ d.tasks h in
    false≢true (
      sym (count_if-zero (is_held id attempts) d.tasks e)
      ∙ In-any (is_held id attempts) r d.tasks m (ground arith))

module _ (decimals : Decimals) (claim : UpdateTask) (since : ℕ) (v : World)
    (held : Running claim.id claim.attempts since ((turn v).others v.db)) where
  -- None of the three ways to finalise the claim is refused.
  complete_task-Unlost :
      (rate : decimals.Decimal) (rate_date fetched_at : ℕ)
      → Unlost (complete_task decimals claim rate rate_date fetched_at v).0
  unfolding complete_task begin query commit execute is
  complete_task-Unlost rate rate_date fetched_at = ground (
    arith,
    update_held claim.id claim.attempts since
        (λ r. record r { status = done; error = none; updated_at = (turn v).now })
        ((turn v).others v.db) held,
  )

  fail_task-Unlost : (reason : Text) → Unlost (fail_task claim reason v).0
  unfolding fail_task execute is
  fail_task-Unlost [] = refl
  fail_task-Unlost (c ∷ reason) = ground (
    arith,
    update_held claim.id claim.attempts since
        (λ r. record r { status = failed; error = some (c ∷ reason); updated_at = (turn v).now })
        ((turn v).others v.db) held,
  )

  release_task-Unlost : Unlost (release_task claim v).0
  unfolding release_task execute is
  release_task-Unlost = ground (
    arith,
    update_held claim.id claim.attempts since
        (λ r. record r { status = pending; updated_at = (turn v).now }) ((turn v).others v.db) held,
  )

module _ (decimals : Decimals) (p : Parsers) (env : Environment) (c : Config) (w w' v : World)
    (t : UpdateTask) (rate : decimals.Decimal) (rate_date fetched_at : ℕ) (reason : Text) where
  -- Under a configuration that Load answers, provided that twice the deadline of a task is an int64,
  -- a claim that was answered is not lost for as long as twice that deadline: CompleteTask, FailTask
  -- and ReleaseTask of it are not refused as those of a lost claim, after any steps of the service
  -- that finalise other claims only and recover until then with the configured threshold, from tables
  -- that keep the invariant.
  pub claim_task-kept :
      load p env ≡ loaded c
      → 2 * pos_part c.worker_task_timeout ≤ max_int64
      → Inv w'.db
      → claim_task w ≡ (ok (some t), w')
      → Spared t.id t.attempts
          (setup_of c).recovery.stuck_timeout
          ((turn w).now + 2 * pos_part c.worker_task_timeout)
          w'.db
          ((turn v).others v.db)
      → Unlost (complete_task decimals t rate rate_date fetched_at v).0
        × Unlost (fail_task t reason v).0
        × Unlost (release_task t v).0
  unfolding setup_of
  claim_task-kept loads fits inv claims spared =
      let margin = stuck_margin p env c loads fits in
      let (_, held) =
        Spared-Running t.id t.attempts (turn w).now (pos_part c.worker_stuck_timeout)
          ((turn w).now + 2 * pos_part c.worker_task_timeout) (omega arith) spared inv
          (claim_task-Running w w' t claims) in
      (
        complete_task-Unlost decimals t (turn w).now v held rate rate_date fetched_at,
        fail_task-Unlost decimals t (turn w).now v held reason,
        release_task-Unlost decimals t (turn w).now v held,
      )
