-- ===== src/Api/Router.antt =====
-- internal/api/router.go, with `HandlerWithOptions` of internal/api/contract/contract.gen.go: the
-- routes, the chain of middleware around each, and the health check outside of it. The router that
-- finds the route of a request (github.com/go-chi/chi) is a parameter.
pub mod Chain
pub mod Answers
pub mod Refusals
pub mod Lines
use currency_quotes_service.Prelude.{ℕ, Bool, List, [], ◌∷◌, ◌++◌, Option, none, some, Text, codes}
use currency_quotes_service.Api.{Response, answer, health, Wire}
use currency_quotes_service.Api.Handlers.{QuoteService}
use currency_quotes_service.Api.Binder.{
  Operation, creates_update, reads_update, reads_latest, Request, Runtime, bind,
}
use currency_quotes_service.Api.Reports.{logging}
use currency_quotes_service.Api.Middleware.{
  Served, returned, Context, Handler, Middleware, Clock, Client, request_id, access_log,
  request_timeout, recover_panic, client_gone,
}

pub data Endpoint : Type 0 where
  healthz : Endpoint
  operation : Operation → Endpoint

pub record Route : Type 0 where
  pub method : Text
  pub pattern : Text
  pub endpoint : Endpoint

-- What NewRouter and HandlerWithOptions register, in their order.
abbrev pub routes : List Route
routes =
    record { method = codes "GET"; pattern = codes "/healthz"; endpoint = healthz }
    ∷ record {
      method = codes "POST";
      pattern = codes "/quotes/updates";
      endpoint = operation creates_update;
    }
    ∷ record {
      method = codes "GET";
      pattern = codes "/quotes/updates/{id}";
      endpoint = operation reads_update;
    }
    ∷ record {
      method = codes "GET";
      pattern = codes "/quotes/latest";
      endpoint = operation reads_latest;
    }
    ∷ []

-- chi: the endpoint of a method and a path, with the text that stands for the parameter of the
-- pattern; without one it answers on its own.
pub record Chi : Type 0 where
  pub find : List Route → Text → Text → Option (Endpoint × Text)

-- `handleHealth`.
unfoldable pub handle_health : Response
handle_health = answer 200 health

-- `r.Use`: the first of the list is the outermost.
unfoldable pub use_all : {S : Type 0} → List (Middleware S) → Handler S → Handler S
use_all [] next = next
use_all (m ∷ ms) next = m (use_all ms next)

-- What a request brings of its own: its clock, the identifier drawn for it, its client, and whether the
-- body of its answer cannot be written.
pub record Arrival : Type 0 where
  pub write_fails : Bool
  pub clock : Clock
  pub fresh : Text
  pub client : Client

-- The context of a request as the server hands it over.
abbrev pub background : Context
background = record { request_id = none; deadline = none }

abbrev pub middlewares : {S : Type 0} → Arrival → ℕ → Request → List (Middleware S)
middlewares a timeout r =
    request_id a.fresh
    ∷ access_log r a.clock
    ∷ request_timeout a.clock timeout
    ∷ recover_panic r
    ∷ []

module _ {S Decimal : Type 0} (svc : QuoteService S Decimal) (wire : Wire Decimal) (wide : ℕ → ℕ)
    (lib : Runtime) (chi : Chi) (timeout : ℕ) where
  -- A method of the wrapper as a handler that returns.
  abbrev pub endpoint : Operation → Text → Arrival → Request → Handler S
  endpoint op segment a r ctx s =
      let out = logging r ctx (client_gone a.client ctx) a.write_fails in
      let ((x, ls), s') = bind svc wire wide lib out op segment r s in
      (record { ending = returned x; header = none; lines = ls }, s')

  abbrev pub route : Option (Endpoint × Text) → Arrival → Request → S → Option Served × S
  route none a r s = (none, s)
  route (some (healthz, segment)) a r s =
      (some (record { ending = returned handle_health; header = none; lines = [] }), s)
  route (some (operation op, segment)) a r s =
      let (v, s') = use_all (middlewares a timeout r) (endpoint op segment a r) background s in
      (some v, s')

  -- The handler that `NewRouter` answers with.
  unfoldable pub new_router : Arrival → Request → S → Option Served × S
  new_router a r s = route (chi.find routes r.method r.path) a r s
