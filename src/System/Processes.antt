-- ===== src/System/Processes.antt =====
-- The processes that main.go starts, each over the repository of internal/storage/postgres and among
-- the others: a goroutine that polls (`quotes.Run`), the goroutine of the recovery (`recovery.Run`),
-- and the requests that the server serves on its own goroutines.
use currency_quotes_service.Prelude.{ℕ, sym, subst, Bool, List, [], ◌∷◌, Option, Text}
use currency_quotes_service.Storage.World.{World, wrap, give, execute}
use currency_quotes_service.Storage.Repository as Postgres
use currency_quotes_service.Storage.Repository.{
  Decimals, claim_task, release_stuck_tasks, select_task_call, select_latest_call, read_details,
  read_latest,
}
use currency_quotes_service.Storage.Invariant.{Inv, Known}
use currency_quotes_service.Storage.Guarantee.Methods.{claim_task-Safe}
use currency_quotes_service.Service.{State}
use currency_quotes_service.Service
use currency_quotes_service.Service.Wakes.{stored, create_task-store}
use currency_quotes_service.Worker.Discipline.{Discipline, run-Rel}
use currency_quotes_service.Worker.Guarantee.{storage, Known-claimed}
use currency_quotes_service.Worker.Loop
use currency_quotes_service.Worker.Loop.{Round, Reports, fresh_reports}
use currency_quotes_service.Worker.Reasons.{abandoned_reason}
use currency_quotes_service.Worker.Recovery.{RecoverySettings}
use currency_quotes_service.Worker.Recovery
use currency_quotes_service.System.{here}
use currency_quotes_service.System.Acts.{
  Among, Among-Rely, Acts, Acts-refl, Acts-trans, Acts-Inv, bind-Does, call-Does,
}
use currency_quotes_service.System.Methods.{
  Anything, give-Does, claim_task-Acts, release_task-Acts, fail_task-Acts, complete_task-Acts,
  release_stuck_tasks-Acts,
}
use currency_quotes_service.System.Posting.{create_task-Acts}

-- What a process may use of the world that it meets.
abbrev pub Ready : World → Type 0
Ready w = Among w.script × Inv w.db

pub Ready-Acts : (w w' : World) → Ready w → Acts w w' → Ready w'
Ready-Acts w w' h a = (subst Among (sym a.script) h.0, Acts-Inv w w' a h.1)

-- A worker among others does steps of the service.
abbrev stepping : (decimals : Decimals) → Discipline World decimals.Decimal (storage decimals)
stepping decimals = record {
  Pre = Ready;
  Rel = Acts;
  Own = λ t w. Known t.id t.pair w.db;
  stays = λ w h. Acts-refl w;
  follows = Acts-trans;
  remains = Ready-Acts;
  claims = λ w h. claim_task-Acts w h.0;
  owns = λ w w' t h e. Known-claimed w w' t (claim_task-Safe w (Among-Rely w.script h.0) h.1) e;
  completes = λ w t rate rate_date fetched_at h k.
      complete_task-Acts w h.0 decimals t rate rate_date fetched_at h.1 k;
  fails = λ w t reason h. fail_task-Acts w h.0 t reason;
  releases = λ w t h. release_task-Acts w h.0 t;
}

module _ (decimals : Decimals) (attempts interval : ℕ) where
  pub worker-Acts :
      (rounds : List (Round decimals.Decimal)) (reports : Reports) (w : World)
      → Ready w
      → Acts w (Loop.run (storage decimals) attempts interval rounds reports w).1
  worker-Acts rounds reports w h =
      run-Rel (storage decimals) (stepping decimals) attempts interval rounds reports w h

pub recovery-Acts :
    (settings : RecoverySettings) (ticks : List Bool) (w : World)
    → Ready w
    → Acts w (Recovery.run release_stuck_tasks settings ticks w).1
unfolding Recovery.run Recovery.pass
recovery-Acts settings [] w h = Acts-refl w
recovery-Acts settings (t ∷ ts) w h =
    let a =
      release_stuck_tasks-Acts w h.0 settings.stuck_timeout settings.max_attempts
        (abandoned_reason settings.max_attempts) h.1 in
    Acts-trans w _ _ a (recovery-Acts settings ts _ (Ready-Acts w _ h a))

module _ (decimals : Decimals) (ttl : ℕ) where
  pub create_task-Stepping :
      (pair : Text) (key : Option ℕ) (s : State World)
      → Ready s.store
      → Acts s.store (Service.create_task (stored decimals ttl) pair key s).1.store
  create_task-Stepping pair key s h =
      subst (Acts s.store) (sym (create_task-store (stored decimals ttl) pair key s))
        (create_task-Acts s.store ttl pair key h.0)

  pub get_task-Stepping :
      (id : ℕ) (s : State World)
      → Ready s.store
      → Acts s.store (Service.get_task (stored decimals ttl) id s).1.store
  unfolding Service.get_task Postgres.get_task
  get_task-Stepping id s h =
      (bind-Does s.store h.0 (wrap (execute (select_task_call id)))
        (λ found. give (read_details decimals found)) Anything Anything
        (call-Does s.store h.0 (select_task_call id) Anything (λ d r. (here, tt)))
        (λ found w' a m q. give-Does w' (read_details decimals found))).0

  pub get_latest_quote-Stepping :
      (pair : Text) (s : State World)
      → Ready s.store
      → Acts s.store (Service.get_latest_quote (stored decimals ttl) pair s).1.store
  unfolding Service.get_latest_quote Postgres.get_latest_quote
  get_latest_quote-Stepping pair s h =
      (bind-Does s.store h.0 (wrap (execute (select_latest_call pair)))
        (λ found. give (read_latest decimals found)) Anything Anything
        (call-Does s.store h.0 (select_latest_call pair) Anything (λ d r. (here, tt)))
        (λ found w' a m q. give-Does w' (read_latest decimals found))).0
