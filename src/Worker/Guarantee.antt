-- ===== src/Worker/Guarantee.antt =====
-- A worker and the recovery pass of internal/worker over the repository of internal/storage/postgres,
-- whatever they observe and whatever others commit meanwhile.
use currency_quotes_service.Prelude.{ℕ, ◌≡◌, sym, subst, Bool, List, [], ◌∷◌, some}
use currency_quotes_service.Domain.Errors.{ok}
use currency_quotes_service.Domain.Task.{UpdateTask}
use currency_quotes_service.Storage.World.{World}
use currency_quotes_service.Storage.Repository.{
  Decimals, claim_task, complete_task, fail_task, release_task, release_stuck_tasks,
}
use currency_quotes_service.Storage.Invariant.{Inv, Known}
use currency_quotes_service.Storage.Guarantee.{Rely, Good, Good-refl, Good-trans, Outcome}
use currency_quotes_service.Storage.Guarantee.Statements.{Holds}
use currency_quotes_service.Storage.Guarantee.Methods.{
  claim_task-Safe, release_task-Safe, fail_task-Safe, release_stuck_tasks-Safe,
}
use currency_quotes_service.Storage.Guarantee.Completion.{complete_task-Safe}
use currency_quotes_service.Worker.{Repository, Observed, process}
use currency_quotes_service.Worker.Reasons.{abandoned_reason}
use currency_quotes_service.Worker.Discipline.{Discipline, process-Rel, run-Rel}
use currency_quotes_service.Worker.Loop.{Round, Reports, run}
use currency_quotes_service.Worker.Recovery.{RecoverySettings}
use currency_quotes_service.Worker.Recovery

-- The repository of the storage package, as main.go hands it to the workers.
abbrev pub storage : (decimals : Decimals) → Repository World decimals.Decimal
storage decimals = record {
  claim_task = claim_task;
  complete_task = complete_task decimals;
  fail_task = fail_task;
  release_task = release_task;
}

pub Known-claimed :
    (w w' : World) (t : UpdateTask)
    → Outcome w (claim_task w) (λ o v. Holds o v.db)
    → claim_task w ≡ (ok (some t), w')
    → Known t.id t.pair w'.db
Known-claimed w w' t h e = (rw e at h).1.0

-- The invariant of the tables, and their moving forward.
abbrev pub soundly : (decimals : Decimals) → Discipline World decimals.Decimal (storage decimals)
soundly decimals = record {
  Pre = λ w. Rely w.script × Inv w.db;
  Rel = Good;
  Own = λ t w. Known t.id t.pair w.db;
  stays = λ w h. Good-refl w h.1;
  follows = Good-trans;
  remains = λ w w' h g. (subst Rely (sym g.script) h.0, g.evolves.inv);
  claims = λ w h. (claim_task-Safe w h.0 h.1).0;
  owns = λ w w' t h e. Known-claimed w w' t (claim_task-Safe w h.0 h.1) e;
  completes = λ w t rate rate_date fetched_at h k.
      (complete_task-Safe decimals t rate rate_date fetched_at w h.0 h.1 k).0;
  fails = λ w t reason h. (fail_task-Safe w h.0 h.1 t reason).0;
  releases = λ w t h. (release_task-Safe w h.0 h.1 t).0;
}

module _ (decimals : Decimals) (attempts : ℕ) where
  -- Processing a claim whose identifier and pair are those of a stored task keeps the invariant of
  -- the tables and moves them forward only, whatever the worker observes, from tables that keep the
  -- invariant and as long as others keep it and move the tables forward only.
  pub process-Good :
      (claim : UpdateTask) (w : World) (o : Observed decimals.Decimal)
      → Rely w.script
      → Inv w.db
      → Known claim.id claim.pair w.db
      → Good w (process (storage decimals) attempts o claim w).1
  process-Good claim w o rely v k =
      process-Rel (storage decimals) (soundly decimals) attempts claim w o (rely, v) k

  -- A worker that polls for any number of rounds keeps the invariant of the tables and moves them
  -- forward only, whatever the provider, the context, the clock and the calls of the database do,
  -- from tables that keep the invariant and as long as whatever others commit keeps it and moves the
  -- tables forward only.
  pub run-Good :
      (interval : ℕ) (rounds : List (Round decimals.Decimal)) (reports : Reports) (w : World)
      → Rely w.script
      → Inv w.db
      → Good w (run (storage decimals) attempts interval rounds reports w).1
  run-Good interval rounds reports w rely v =
      run-Rel (storage decimals) (soundly decimals) attempts interval rounds reports w (rely, v)

-- The loop of the recovery keeps the invariant of the tables and moves them forward only, for any
-- number of ticks, from tables that keep the invariant and as long as whatever others commit keeps
-- it and moves the tables forward only.
pub recovery_run-Good :
    (settings : RecoverySettings) (ticks : List Bool) (w : World)
    → Rely w.script
    → Inv w.db
    → Good w (Recovery.run release_stuck_tasks settings ticks w).1
unfolding Recovery.run Recovery.pass
recovery_run-Good settings [] w rely v = Good-refl w v
recovery_run-Good settings (t ∷ ts) w rely v =
    let reason = abandoned_reason settings.max_attempts in
    let g =
      (release_stuck_tasks-Safe w settings.stuck_timeout settings.max_attempts reason rely v).0 in
    Good-trans w _ _ g
      (recovery_run-Good settings ts _ (subst Rely (sym g.script) rely) g.evolves.inv)
