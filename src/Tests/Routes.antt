-- ===== src/Tests/Routes.antt =====
-- Requests to the router, over the sample.
use currency_quotes_service.Prelude.{
  All, any, ◌==◌, ◌≡◌, refl, false, ◌&&◌, List, [], ◌∷◌, Option, none, some, Text, codes, text_eq,
  find?,
}
use currency_quotes_service.Domain.Errors.{rejected_pair, not_in_form}
use currency_quotes_service.Domain.Pair.{parse_pair, check_pair, cut, to_upper}
use currency_quotes_service.Storage.World.{World}
use currency_quotes_service.Service.{State}
use currency_quotes_service.Api.{
  failure, error_code_invalid_pair, wording, silence, answer, Response, write_pair_error,
  write_param_error,
}
use currency_quotes_service.Api.Router.Lines.{id_of, is_failure, new_router-logged}
use currency_quotes_service.Api.Envelope.{IsFit}
use currency_quotes_service.Api.Contract.{served}
use currency_quotes_service.Api.Binder.{
  reads_latest, Request, Bound, bound, missing, malformed, Runtime, pair_name, bind,
  bind_latest_quote,
}
use currency_quotes_service.Api.Middleware.{
  returned, panicked, request_line, Served, Handler, client_gone, status, request_id, access_log,
  request_timeout, recover_panic, request_id_from,
}
use currency_quotes_service.Api.Router.{
  Endpoint, operation, Route, routes, Chi, Arrival, use_all, new_router,
}
use currency_quotes_service.Api.Router.Chain.{inner, Traced, Settled, before, after, chain-Traced}
use currency_quotes_service.Api.Router.Refusals.{new_router-refused}
use currency_quotes_service.Api.Router.Answers.{
  new_router-IsFit, HasUnboundStatus, new_router-unbound,
}
use currency_quotes_service.Tests.Sample.{exact}
use currency_quotes_service.Tests.Requests.{plain, ascii, idle}

-- A router that knows the patterns without a parameter.
abbrev endpoint_of : Option Route → Option (Endpoint × Text)
endpoint_of none = none
endpoint_of (some r) = some (r.endpoint, [])

abbrev pub by_path : Chi
by_path = record {
  find = λ rs method path.
      endpoint_of (find? (λ r. text_eq r.method method && text_eq r.pattern path) rs);
}

abbrev one_value : Option (Text × List Text) → Bound
one_value none = missing
one_value (some (name, v ∷ [])) = bound v
one_value (some (name, vs)) = malformed

abbrev pub single : Runtime
single = record {
  query_parameter = λ name q. one_value (find? (λ p. text_eq p.0 name) q);
  styled_parameter = λ name v. some 9;
}

abbrev nameless : Request
nameless = record {
  method = codes "GET";
  path = codes "/quotes/latest";
  headers = [];
  query = [];
  body = none;
}

abbrev twofold : Request
twofold = record nameless { query = (pair_name, codes "USD/EUR" ∷ codes "EUR/USD" ∷ []) ∷ [] }

abbrev arrival : Arrival
arrival = record {
  write_fails = false;
  clock = record { started = 100; duration = 2 };
  fresh = codes "f00d";
  client = record { left = none; asked = 101 };
}

abbrev panics : Handler (State World)
panics ctx s = (record { ending = panicked false silence; header = none; lines = [] }, s)

chain-Traced_example :
    Traced arrival nameless
      (before arrival 9 nameless panics idle).0
      (after arrival 9 nameless panics idle).0
    × Settled
        (before arrival 9 nameless panics idle).0.ending
        (after arrival 9 nameless panics idle).0.ending
    × ((after arrival 9 nameless panics idle).1 ≡ (before arrival 9 nameless panics idle).1)
chain-Traced_example = chain-Traced arrival 9 nameless panics idle

finds_latest : by_path.find routes nameless.method nameless.path ≡ some (operation reads_latest, [])
unfolding find? text_eq
finds_latest = refl

new_router-IsFit_example :
    (v : Served) × (x : Response) × (((new_router
          (served exact 3600)
          plain
          ascii
          single
          by_path
          9
          arrival
          nameless
          idle).0
        ≡ some v)
      × (v.ending ≡ returned x)
      × (v.header ≡ some arrival.fresh)
      × IsFit reads_latest (client_gone arrival.client (inner arrival 9)) x)
new_router-IsFit_example =
    new_router-IsFit (served exact 3600) plain ascii single by_path 9 arrival nameless reads_latest
      [] idle finds_latest

abbrev refusal : Served
refusal = record {
  ending =
      returned
        (answer 400 (failure error_code_invalid_pair (wording (rejected_pair (not_in_form [])))));
  header = some arrival.fresh;
  lines = request_line nameless.method nameless.path 400 2 arrival.fresh ∷ [];
}

refuses_nameless :
    new_router (served exact 3600) plain ascii single by_path 9 arrival nameless idle
    ≡ (some refusal, idle)
unfolding new_router find? text_eq use_all request_id access_log request_timeout recover_panic
    request_id_from status bind bind_latest_quote write_param_error write_pair_error parse_pair
    check_pair cut to_upper
refuses_nameless = refl

new_router-refused_example : idle ≡ idle
unfolding status
new_router-refused_example =
    new_router-refused (served exact 3600) plain ascii single by_path 9 arrival nameless idle idle
      refusal refuses_nameless refl

new_router-unbound_example :
    (v : Served) × ((new_router
        (served exact 3600)
        plain
        ascii
        single
        by_path
        9
        arrival
        twofold
        idle).0
      ≡ some v)
    × HasUnboundStatus malformed v.ending
unfolding client_gone find? text_eq
new_router-unbound_example =
    new_router-unbound (served exact 3600) plain ascii single by_path 9 arrival twofold [] idle
      malformed finds_latest refl refl

-- The pair sent twice, which the service answers with the status 500.
new_router-logged_example :
    (v : Served) × ((new_router
        (served exact 3600)
        plain
        ascii
        single
        by_path
        9
        arrival
        twofold
        idle).0
      ≡ some v)
    × (v.header ≡ some arrival.fresh)
    × All (λ l. id_of l ≡ arrival.fresh) v.lines
    × (any is_failure v.lines ≡ (status v.ending == 500))
unfolding client_gone
new_router-logged_example =
    new_router-logged (served exact 3600) plain ascii single by_path 9 arrival twofold reads_latest
      [] idle finds_latest refl
