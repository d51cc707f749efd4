-- ===== src/Tests/Together.antt =====
-- The processes of the service together, over the sample.
use currency_quotes_service.Prelude.{
  codes, some, false, any, text_eq, ◌≡◌, ◌<◌, refl, [], ◌∷◌, count_if, arith,
}
use currency_quotes_service.Domain.Errors.{ok}
use currency_quotes_service.Domain.Task.{UpdateTask, in_progress}
use currency_quotes_service.Storage.Statements.{
  update, release_held, claim_oldest, oldest_pending, insert_quote,
}
use currency_quotes_service.Storage.World.{World, execute, begin, query, commit}
use currency_quotes_service.Storage.Repository.{claim_task, complete_task}
use currency_quotes_service.Storage.Invariant.{Inv}
use currency_quotes_service.Storage.Guarantee.{Evolves}
use currency_quotes_service.Storage.Guarantee.Completion.{complete_task-Safe}
use currency_quotes_service.Storage.Finalising.{IsOk}
use currency_quotes_service.Worker.Guarantee.{storage}
use currency_quotes_service.Worker.Loop
use currency_quotes_service.Worker.Loop.{fresh_reports}
use currency_quotes_service.Worker.Draining.{waiting, Quiet}
use currency_quotes_service.Worker.Draining.Rounds.{run_drains}
use currency_quotes_service.System.{here, Reach-Step, releases}
use currency_quotes_service.System.Steps.{Reach-Evolves}
use currency_quotes_service.System.Acts.{Acts}
use currency_quotes_service.Storage.Statements.{is_stale}
use currency_quotes_service.Storage.Repository.{release_stuck_tasks}
use currency_quotes_service.System.Recovery.{release_stuck_tasks_clears}
use currency_quotes_service.System.Running.{Setup, Libraries, polls, run, run-Acts}
use currency_quotes_service.System.Safety.{claims_apart, completed_once}
use currency_quotes_service.Tests.Sample.{
  busy, busy-Inv, running_row, waiting_row, done_row, quiet, quiet-Rely, start, claim, exact,
}
use currency_quotes_service.Tests.Tables.{claimed_task, after_claim, claims_waiting}
use currency_quotes_service.Tests.Workers.{two_rounds}
use currency_quotes_service.Tests.Requests.{plain, ascii}
use currency_quotes_service.Tests.Routes.{by_path, single}

abbrev setup : Setup
setup = record {
  idempotency_ttl = 3600;
  provider_attempts = 3;
  report_interval = 60;
  recovery = record { stuck_timeout = 60; max_attempts = 3 };
  handler_timeout = 9;
}

abbrev libraries : Libraries
libraries = record { decimals = exact; wire = plain; wide = ascii; binder = single; chi = by_path }

run-Acts_example : Acts start (run setup libraries (polls two_rounds) start)
run-Acts_example = run-Acts setup libraries (polls two_rounds) start (λ n d. here) busy-Inv

Reach-Evolves_example : Evolves busy (release_held 100 1 1 busy).1
Reach-Evolves_example = Reach-Evolves (Reach-Step (releases 100 1 1 refl)) busy-Inv

-- The task 2 after its claim was released, and as it is claimed again.
abbrev given_back : World
given_back = record start { db = (release_held 100 2 1 after_claim.db).1 }

abbrev second_claim : UpdateTask
second_claim = record claimed_task { attempts = 2 }

abbrev after_second : World
after_second = record start {
  db = record busy {
    tasks =
        running_row
        ∷ record waiting_row { status = in_progress; attempts = 2; updated_at = 100 }
        ∷ done_row
        ∷ [];
  };
  at = 1;
}

claims_again : claim_task given_back ≡ (ok (some second_claim), after_second)
unfolding claim_task execute claim_oldest oldest_pending update count_if
claims_again = refl

claims_apart_example : 1 < 2
claims_apart_example =
    claims_apart start after_claim given_back after_second claimed_task second_claim busy-Inv
      claims_waiting (Reach-Step (releases 100 2 1 refl)) claims_again refl

abbrev pub completed : World
completed = (complete_task exact claim 196948000000 90 95 start).1

pub completes_running : complete_task exact claim 196948000000 90 95 start ≡ (ok tt, completed)
unfolding complete_task begin query commit execute update count_if insert_quote any
completes_running = refl

pub completed-Inv : Inv completed.db
unfolding any text_eq
completed-Inv =
    (complete_task-Safe exact claim 196948000000 90 95 start quiet-Rely busy-Inv refl).0.evolves.inv

completed_once_example :
    let r = complete_task exact claim 205000000000 91 99 (record start { db = completed.db }) in
    (r.1.db ≡ completed.db) × (¬ IsOk r.0)
completed_once_example =
    completed_once exact 196948000000 205000000000 90 95 91 99 claim claim start completed
      (record start { db = completed.db }) completed-Inv completes_running here refl

pub quiet-Quiet : Quiet quiet
quiet-Quiet = record { alone = λ n d. refl; heard = λ n. refl; unlocked = λ n id. refl }

run_drains_example : waiting (Loop.run (storage exact) 3 60 two_rounds fresh_reports start).1.db ≡ 0
unfolding count_if
run_drains_example =
    run_drains exact 3 60 two_rounds fresh_reports start quiet-Quiet (ground arith)
      ((refl, refl, refl), ((refl, refl, refl), tt)) (omega arith)

abbrev pub recovered_world : World
recovered_world = (release_stuck_tasks 60 3 (codes "abandoned") start).1

pub recovers_running :
    release_stuck_tasks 60 3 (codes "abandoned") start ≡ (ok (1, 0), recovered_world)
unfolding release_stuck_tasks begin query commit execute update count_if
recovers_running = refl

release_stuck_tasks_clears_example : any (is_stale 100 60) recovered_world.db.tasks ≡ false
release_stuck_tasks_clears_example =
    release_stuck_tasks_clears 60 3 1 0 b'a' (codes "bandoned") start recovered_world
      recovers_running
