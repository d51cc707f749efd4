-- ===== src/Tests/Requests.antt =====
-- Requests to the whole service, over the sample.
use currency_quotes_service.Prelude.{
  ℕ, ◌≡◌, ◌≢◌, refl, true, false, none, some, codes, any, find?, text_eq,
}
use currency_quotes_service.Domain.Task.{pending, done}
use currency_quotes_service.Domain.Pair.{
  parse_pair, check_pair, to_upper, upper_rune, cut, is_supported,
}
use currency_quotes_service.Storage.Schema.{has_pair_shape}
use currency_quotes_service.Storage.World.{World, execute}
use currency_quotes_service.Storage.Statements.{select_task, insert_task}
use currency_quotes_service.Storage.Repository.{create_task, get_task, read_details, read_quote}
use currency_quotes_service.Service.{State}
use currency_quotes_service.Service
use currency_quotes_service.Api.{
  writes, AcceptedResponse, TaskResponse, accepted, task, Wire, answer, new_accepted_response,
  new_task_response, format_rate, normalise_time,
}
use currency_quotes_service.Api.Handlers.{create_quote_update, get_quote_update}
use currency_quotes_service.Api.Contract.{served, Coherent, get_quote_update-Coherent}
use currency_quotes_service.Api.{failure, error_code_not_found, fixed}
use currency_quotes_service.System.{here}
use currency_quotes_service.System.Clients.{get_quote_update-settled, create_quote_update-found}
use currency_quotes_service.Tests.Sample.{eur_mxn, busy-Inv, start, exact}

-- Rates without a point, and a time that counts seconds.
abbrev pub plain : Wire ℕ
plain = record { string_fixed = λ scale d. codes "20.1394500000"; second = 1 }

abbrev pub ascii : ℕ → ℕ
ascii c = c

abbrev pub idle : State World
idle = record { store = start; wake = false }

abbrev done_response : TaskResponse
done_response = record {
  update_id = 3;
  pair = eur_mxn;
  status = done;
  error = none;
  rate = some (codes "20.1394500000");
  rate_date = some 4;
  fetched_at = some 5;
}

abbrev read_once : State World
read_once = record { store = record start { at = 1 }; wake = false }

reads_task :
    get_quote_update (served exact 3600) plain ascii (writes false) 3 idle
    ≡ (answer 200 (task done_response), read_once)
unfolding get_quote_update Service.get_task get_task execute select_task find? read_details
    read_quote new_task_response format_rate normalise_time
reads_task = refl

get_quote_update-Coherent_example : (done_response.update_id ≡ 3) × Coherent done_response
get_quote_update-Coherent_example =
    get_quote_update-Coherent exact 3600 plain ascii false 3 idle read_once done_response busy-Inv
      reads_task

abbrev pub joined : AcceptedResponse
joined = record { update_id = 2; status = pending }

pub posts_pair :
    (create_quote_update
      (served exact 3600)
      plain
      ascii
      (writes false)
      (some (codes "usd/eur"))
      none
      idle)
    ≡ (answer 202 (accepted joined), record { store = record start { at = 1 }; wake = true })
unfolding create_quote_update parse_pair check_pair to_upper upper_rune cut is_supported any text_eq
    Service.create_task Service.notify create_task execute insert_task find? new_accepted_response
    has_pair_shape
posts_pair = refl

reads_again :
    get_quote_update (served exact 3600) plain ascii (writes true) 3 read_once
    ≡ (answer 200 (task done_response), record { store = record start { at = 2 }; wake = false })
unfolding get_quote_update Service.get_task get_task execute select_task find? read_details
    read_quote new_task_response format_rate normalise_time
reads_again = refl

get_quote_update-settled_example : done_response ≡ done_response
get_quote_update-settled_example =
    get_quote_update-settled exact 3600 plain ascii 3 false true idle read_once read_once
      (record { store = record start { at = 2 }; wake = false }) done_response done_response
      busy-Inv reads_task refl here reads_again

create_quote_update-found_example :
    (get_quote_update (served exact 3600) plain ascii (writes false) 2 read_once).0
    ≢ answer 404 (failure error_code_not_found (fixed (codes "no update with this id")))
create_quote_update-found_example =
    create_quote_update-found exact 3600 plain ascii (codes "usd/eur") none false false idle
      (record { store = record start { at = 1 }; wake = true }) read_once joined
      (failure error_code_not_found (fixed (codes "no update with this id"))) (λ n d. here) busy-Inv
      posts_pair here
