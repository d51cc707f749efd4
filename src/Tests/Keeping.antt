-- ===== src/Tests/Keeping.antt =====
-- Claims over time, over the sample: one that is kept, one that is completed, and a worker that cannot
-- claim.
use currency_quotes_service.Service
use currency_quotes_service.Service.{State}
use currency_quotes_service.Domain.Pair.{
  parse_pair, check_pair, to_upper, upper_rune, cut, is_supported,
}
use currency_quotes_service.Api.{
  writes, TaskResponse, task, answer, new_task_response, format_rate, normalise_time,
}
use currency_quotes_service.Api.Handlers.{get_quote_update, get_latest_quote}
use currency_quotes_service.Api.Contract.{served}
use currency_quotes_service.Tests.Requests.{plain, ascii}
use currency_quotes_service.System.Delivery.Answers.{shown_done, get_quote_update-delivered}
use currency_quotes_service.System.Latest.Answers.{AnswersAsNew, get_latest_quote-delivered}
use currency_quotes_service.Prelude.{
  none, false, ℕ, ◌+◌, ◌*◌, ◌≤◌, ◌≡◌, refl, codes, count_if, find?, any, some, text_eq, arith,
}
use currency_quotes_service.Domain.Errors.{ok, err, foreign}
use currency_quotes_service.Domain.Task.{done}
use currency_quotes_service.Storage.Schema.{has_pair_shape}
use currency_quotes_service.Storage.Invariant.{Inv}
use currency_quotes_service.Storage.Statements.{select_task, update, insert_quote, release_held}
use currency_quotes_service.Storage.World.{World, execute, begin, query, commit}
use currency_quotes_service.Storage.Repository.{
  complete_task, fail_task, release_task, get_task, read_details, read_quote,
}
use currency_quotes_service.System.{here, releases, recovers}
use currency_quotes_service.Config.{second}
use currency_quotes_service.Storage.Recovering.{recovered}
use currency_quotes_service.System.Running.{setup_of}
use currency_quotes_service.System.Holding.{still, onward}
use currency_quotes_service.System.Holding.Margin.{Unlost, claim_task-kept}
use currency_quotes_service.Worker.{Repository}
use currency_quotes_service.Worker.Loop.{fresh_reports, run}
use currency_quotes_service.Worker.Pacing.{errors, recoveries, run-paced}
use currency_quotes_service.Tests.Sample.{eur_mxn, start, claim, exact}
use currency_quotes_service.Tests.Tables.{claimed_task, after_claim, claims_waiting}
use currency_quotes_service.Tests.Together.{completed, completes_running, completed-Inv}
use currency_quotes_service.Tests.Settings.{no_parsers, database_only, defaults, loads_defaults}
use currency_quotes_service.Tests.Workers.{two_rounds}

after_claim-Inv : Inv after_claim.db
unfolding any text_eq has_pair_shape
after_claim-Inv = ground arith

abbrev later : World
later = record start { db = completed.db }

abbrev asked : State World
asked = record { store = later; wake = false }

abbrev closed_response : TaskResponse
closed_response = record {
  update_id = 1;
  pair = eur_mxn;
  status = done;
  error = none;
  rate = some (codes "20.1394500000");
  rate_date = some 90;
  fetched_at = some 95;
}

reads_closed :
    get_quote_update (served exact 3600) plain ascii (writes false) 1 asked
    ≡ (answer 200 (task closed_response), record asked { store = record later { at = 1 } })
unfolding get_quote_update Service.get_task get_task execute select_task find? read_details
    read_quote new_task_response format_rate normalise_time complete_task begin query commit update
    count_if insert_quote any
reads_closed = refl

get_quote_update-delivered_example :
    (n : ℕ) × (x : ℕ) × (some 196948000000 ≡ some n)
    × (some n ≡ some x)
    × (closed_response ≡ shown_done exact plain claim x 90 95)
get_quote_update-delivered_example =
    get_quote_update-delivered exact 3600 plain ascii claim 196948000000 90 95 false start completed
      asked (record asked { store = record later { at = 1 } }) closed_response completed-Inv
      completes_running here reads_closed

parses_lower : parse_pair ascii (codes "eur/mxn") ≡ ok eur_mxn
unfolding parse_pair check_pair to_upper upper_rune cut is_supported any text_eq
parses_lower = refl

get_latest_quote-delivered_example :
    AnswersAsNew exact 3600 plain ascii 95
      (get_latest_quote (served exact 3600) plain ascii (writes false) (codes "eur/mxn") asked).0
get_latest_quote-delivered_example =
    get_latest_quote-delivered exact 3600 plain ascii claim 196948000000 90 95 false
      (codes "eur/mxn") start completed asked completed-Inv completes_running here parses_lower

-- Workers that fail to claim at every poll, and their clock.
abbrev failing : Repository ℕ ℕ
failing = record {
  claim_task = λ s. (err foreign, s);
  complete_task = λ _ _ _ _ s. (ok tt, s);
  fail_task = λ _ _ s. (ok tt, s);
  release_task = λ _ s. (ok tt, s);
}

run-paced_example :
    let ls = (run failing 3 60 two_rounds fresh_reports 0).0 in
    (errors ls * 60 + 90 ≤ (recoveries ls + 1) * 60 + 97) × (recoveries ls ≤ errors ls)
run-paced_example = run-paced failing 3 60 two_rounds 90 0 (omega arith)

-- Others give the task 1 back, and the recovery passes, while the claim of the task 2 is held.
abbrev passed : World
passed = record start {
  db = recovered 200 (60 * second) 3 (codes "abandoned") (release_held 110 1 1 after_claim.db).1;
}

claim_task-kept_example :
    Unlost (complete_task exact claimed_task 196948000000 90 95 passed).0
    × Unlost (fail_task claimed_task (codes "unusable") passed).0
    × Unlost (release_task claimed_task passed).0
unfolding setup_of
claim_task-kept_example =
    claim_task-kept exact no_parsers database_only defaults start after_claim passed claimed_task
      196948000000 90 95 (codes "unusable") loads_defaults (omega arith) after_claim-Inv
      claims_waiting
      (onward (onward still (releases 110 1 1 refl) (λ h. absurd (omega arith)))
        (recovers 200 (60 * second) 3 b'a' (codes "bandoned") refl) (refl, omega arith))
