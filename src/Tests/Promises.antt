-- ===== src/Tests/Promises.antt =====
-- A post that waits until its client sees it done, over the sample.
use currency_quotes_service.Prelude.{refl, inl, true, false, count_if, codes, arith}
use currency_quotes_service.Storage.World.{World}
use currency_quotes_service.Service.{State}
use currency_quotes_service.Worker.Guarantee.{storage}
use currency_quotes_service.Worker.Loop.{fresh_reports, run}
use currency_quotes_service.System.{here}
use currency_quotes_service.System.Promise.{SeenDone}
use currency_quotes_service.System.Promise.Recovered.{get_quote_update-recovered}
use currency_quotes_service.Storage.World.{begin, query, commit, execute}
use currency_quotes_service.Storage.Statements.{update}
use currency_quotes_service.Storage.Repository.{release_stuck_tasks}
use currency_quotes_service.Tests.Sample.{eur_mxn, running_row, busy-Inv, start, exact}
use currency_quotes_service.Tests.Workers.{answered_rounds, rounds-Answered}
use currency_quotes_service.Tests.Together.{quiet-Quiet, recovered_world, recovers_running}
use currency_quotes_service.Tests.Requests.{plain, ascii}

abbrev posted : State World
posted = record { store = record start { at = 1 }; wake = true }

abbrev worked : State World
worked = record {
  store = record start {
    db = (run (storage exact) 3 60 answered_rounds fresh_reports posted.store).1.db;
    at = 12;
  };
  wake = false;
}

-- The task 1, whose worker is gone.
abbrev recovered_and_worked : State World
recovered_and_worked = record {
  store = record start {
    db = (run (storage exact) 3 60 answered_rounds fresh_reports recovered_world).1.db;
    at = 16;
  };
  wake = false;
}

get_quote_update-recovered_example :
    SeenDone exact 3600 plain ascii (λ n p. (n, refl)) false 1 eur_mxn recovered_and_worked
unfolding release_stuck_tasks begin query commit execute update count_if
get_quote_update-recovered_example =
    get_quote_update-recovered exact 3600 plain ascii (λ n p. (n, refl)) 60 3 1 0 b'a'
      (codes "bandoned") 3 60 answered_rounds fresh_reports start recovered_world running_row
      busy-Inv recovers_running (inl refl) (ground arith) (omega arith) quiet-Quiet (ground arith)
      ((refl, refl, refl), ((refl, refl, refl), tt)) rounds-Answered (omega arith) false
      recovered_and_worked here refl
