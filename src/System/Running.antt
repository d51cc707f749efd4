-- ===== src/System/Running.antt =====
-- main.go: what it hands to the parts, and the processes that it starts.
use currency_quotes_service.Prelude.{ℕ, Bool, false, List, [], ◌∷◌, pos_part, ◌*◌}
use currency_quotes_service.Storage.World.{World}
use currency_quotes_service.Storage.Repository.{Decimals, release_stuck_tasks}
use currency_quotes_service.Storage.Invariant.{Inv}
use currency_quotes_service.Service.{State}
use currency_quotes_service.Worker.Guarantee.{storage}
use currency_quotes_service.Worker.Loop
use currency_quotes_service.Worker.Loop.{Round, fresh_reports}
use currency_quotes_service.Worker.Recovery
use currency_quotes_service.Worker.Recovery.{RecoverySettings}
use currency_quotes_service.Api.{Wire}
use currency_quotes_service.Api.Contract.{served}
use currency_quotes_service.Api.Binder.{Request, Runtime}
use currency_quotes_service.Api.Router.{Chi, Arrival, new_router}
use currency_quotes_service.Config.{Config, second, handler_timeout}
use currency_quotes_service.System.Acts.{Among, Acts, Acts-refl, Acts-trans}
use currency_quotes_service.System.Processes.{Ready, Ready-Acts, worker-Acts, recovery-Acts}
use currency_quotes_service.System.Requests.{new_router-Steps}

-- What main.go takes from the configuration: the lifetime of a key for the repository, the attempts
-- for the worker, the settings of the recovery and the deadline of a request; and the interval of
-- the reports, a constant of the worker.
pub record Setup : Type 0 where
  pub idempotency_ttl : ℕ
  pub provider_attempts : ℕ
  pub report_interval : ℕ
  pub recovery : RecoverySettings
  pub handler_timeout : ℕ

-- The wiring of the counts and durations, which `Load` has found positive; `report_interval` is the minute of `claimFailureReportInterval`.
unfoldable pub setup_of : Config → Setup
unfolding handler_timeout
setup_of c = record {
  idempotency_ttl = pos_part c.idempotency_ttl;
  provider_attempts = pos_part c.provider_attempts;
  report_interval = 60 * second;
  recovery = record {
    stuck_timeout = pos_part c.worker_stuck_timeout;
    max_attempts = pos_part c.worker_max_attempts;
  };
  handler_timeout = pos_part (handler_timeout c);
}

-- The libraries behind the parts.
pub record Libraries : Type 1 where
  pub decimals : Decimals
  pub wire : Wire decimals.Decimal
  pub wide : ℕ → ℕ
  pub binder : Runtime
  pub chi : Chi

-- A goroutine of the group, with what it observes: a worker and its rounds, the recovery and its ticks,
-- or the server and the requests that one of its goroutines serves.
pub data Process (lib : Libraries) : Type 0 where
  polls : List (Round lib.decimals.Decimal) → Process lib
  passes : List Bool → Process lib
  serves : List (Arrival × Request) → Process lib

module _ (setup : Setup) (lib : Libraries) where
  abbrev served_all : List (Arrival × Request) → State World → State World
  served_all [] s = s
  served_all ((a, r) ∷ rs) s =
      served_all rs
        (new_router (served lib.decimals setup.idempotency_ttl) lib.wire lib.wide lib.binder lib.chi
          setup.handler_timeout a r s).1

  -- The world after a process.
  unfoldable pub run : Process lib → World → World
  unfolding Loop.run Recovery.run
  run (polls rounds) w =
      (Loop.run (storage lib.decimals) setup.provider_attempts setup.report_interval rounds
        fresh_reports w).1
  run (passes ticks) w = (Recovery.run release_stuck_tasks setup.recovery ticks w).1
  run (serves requests) w = (served_all requests (record { store = w; wake = false })).store

  served_all-Acts :
      (rs : List (Arrival × Request)) (s : State World)
      → Ready s.store
      → Acts s.store (served_all rs s).store
  served_all-Acts [] s h = Acts-refl s.store
  served_all-Acts ((a, r) ∷ rs) s h =
      let first =
        new_router-Steps lib.decimals setup.idempotency_ttl lib.wire lib.wide lib.binder lib.chi
          setup.handler_timeout a r s h in
      Acts-trans s.store _ _ first (served_all-Acts rs _ (Ready-Acts s.store _ h first))

  -- Each process of main.go, among others that do steps of the service, does steps of the service, from
  -- tables that keep the invariant: what it publishes is a sequence of posts, claims, completions,
  -- failures, releases and recoveries, mixed with those of the others.
  pub run-Acts : (p : Process lib) (w : World) → Among w.script → Inv w.db → Acts w (run p w)
  unfolding run
  run-Acts (polls rounds) w h v =
      worker-Acts lib.decimals setup.provider_attempts setup.report_interval rounds fresh_reports w
        (h, v)
  run-Acts (passes ticks) w h v = recovery-Acts setup.recovery ticks w (h, v)
  run-Acts (serves requests) w h v =
      served_all-Acts requests (record { store = w; wake = false }) (h, v)
