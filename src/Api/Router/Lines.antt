-- ===== src/Api/Router/Lines.antt =====
-- What is logged for a request to the router of internal/api/router.go.
use currency_quotes_service.Prelude.{
  ℕ, ◌≡◌, refl, sym, ap, subst, Bool, true, false, List, [], ◌∷◌, ◌++◌, some, Text, All, All-append,
  any, any-append, ◌==◌, arith,
}
use currency_quotes_service.Api.{
  Response, ErrorCode, write_internal, error_code_internal_error, error_code_invalid_pair,
  error_code_invalid_request, error_code_key_conflict, error_code_not_found, Wire,
}
use currency_quotes_service.Api.Handlers.{QuoteService}
use currency_quotes_service.Api.Binder.{Operation, Request, Runtime, bind}
use currency_quotes_service.Api.Reports.{log_abandoned, internal_lines, json_lines, logging}
use currency_quotes_service.Api.Middleware.{
  Line, returned, request_line, panic_line, failed_line, abandoned_line, write_line, Context,
  Served, client_gone, request_id_from, status,
}
use currency_quotes_service.Api.Router.{operation, routes, Chi, Arrival, new_router, endpoint}
use currency_quotes_service.Api.Envelope.{Fits, is_internal, status_of}
use currency_quotes_service.Api.Router.Answers.{bind-Fits}
use currency_quotes_service.Api.Router.Chain.{inner, after, chain-run}

abbrev pub id_of : Line → Text
id_of (request_line m p st d id) = id
id_of (panic_line m p id) = id
id_of (failed_line m p id) = id
id_of (abandoned_line m p id) = id
id_of (write_line id) = id

module _ (r : Request) (ctx : Context) where
  internal-named :
      (gone : Bool) → All (λ l. id_of l ≡ request_id_from ctx) (internal_lines r ctx gone)
  unfolding internal_lines log_abandoned
  internal-named true = (refl, tt)
  internal-named false = (refl, tt)

  json-named :
      (gone fails : Bool) → All (λ l. id_of l ≡ request_id_from ctx) (json_lines r ctx gone fails)
  unfolding json_lines log_abandoned
  json-named gone false = tt
  json-named true true = (refl, tt)
  json-named false true = (refl, tt)

abbrev pub is_failure : Line → Bool
is_failure (failed_line m p id) = true
is_failure _ = false

json-failures :
    (r : Request) (ctx : Context) (fails : Bool)
    → any is_failure (json_lines r ctx false fails) ≡ false
unfolding json_lines any
json-failures r ctx true = refl
json-failures r ctx false = refl

-- What a handler does, with the lines that it logs: each names the request and, as long as the client
-- is there, `request failed` is logged exactly with the status 500.
record Spoken (ctx : Context) (x : Response × List Line) : Type 0 where
  named : All (λ l. id_of l ≡ request_id_from ctx) x.1
  failing : any is_failure x.1 ≡ (status (returned x.0) == 500)

client_status : (code : ErrorCode) → is_internal code ≡ false → (status_of code == 500) ≡ false
client_status error_code_internal_error h = ground (arith, h)
client_status error_code_invalid_pair h = refl
client_status error_code_invalid_request h = refl
client_status error_code_key_conflict h = refl
client_status error_code_not_found h = refl

logging-Spoken :
    (r : Request) (ctx : Context) (fails : Bool)
    → Fits (logging r ctx false fails) (λ op x. Spoken ctx x)
unfolding status write_internal internal_lines any
logging-Spoken r ctx fails = record {
  internal = λ op. record { named = internal-named r ctx false; failing = refl };
  refused =
      λ op code m client safe. record { named = tt; failing = sym (client_status code client) };
  accepts =
      λ x. record { named = json-named r ctx false fails; failing = json-failures r ctx fails };
  tells = λ x. record { named = json-named r ctx false fails; failing = json-failures r ctx fails };
  quotes =
      λ x. record { named = json-named r ctx false fails; failing = json-failures r ctx fails };
}

module _ {S Decimal : Type 0} (svc : QuoteService S Decimal) (wire : Wire Decimal) (wide : ℕ → ℕ)
    (lib : Runtime) (chi : Chi) (timeout : ℕ) (a : Arrival) (r : Request) where
  -- Every line that is logged for a request to an operation carries the identifier that the header
  -- gives the client, and a failure is logged exactly when the answer has the status 500, as long as
  -- the client has not hung up before the deadline.
  pub new_router-logged :
      (op : Operation) (segment : Text) (s : S)
      → chi.find routes r.method r.path ≡ some (operation op, segment)
      → client_gone a.client (inner a timeout) ≡ false
      → (v : Served) × ((new_router svc wire wide lib chi timeout a r s).0 ≡ some v)
        × (v.header ≡ some a.fresh)
        × All (λ l. id_of l ≡ a.fresh) v.lines
        × (any is_failure v.lines ≡ (status v.ending == 500))
  unfolding new_router request_id_from any
  new_router-logged op segment s e here =
      let next = endpoint svc wire wide lib chi timeout op segment a r in
      let run = chain-run a timeout r next s in
      let gone = client_gone a.client (inner a timeout) in
      let out = logging r (inner a timeout) gone a.write_fails in
      let spoken = (bind svc wire wide lib out op segment r s).0 in
      let fit : Spoken (inner a timeout) spoken =
        subst
          (λ g.
            Spoken (inner a timeout)
              (bind svc wire wide lib (logging r (inner a timeout) g a.write_fails) op segment r
                s).0)
          (sym here)
          (bind-Fits svc wire wide lib (logging r (inner a timeout) false a.write_fails)
            (λ op x. Spoken (inner a timeout) x) (logging-Spoken r (inner a timeout) a.write_fails)
            op segment r s) in
      (
        (after a timeout r next s).0,
        rw e refl,
        ap (λ p. p.0.header) run,
        subst (λ p. All (λ l. id_of l ≡ a.fresh) p.0.lines) (sym run)
            (All-append _ (spoken.1 ++ []) _ (All-append _ spoken.1 [] fit.named tt) (refl, tt)),
        subst (λ p. any is_failure p.0.lines ≡ (status p.0.ending == 500)) (sym run)
            (ground (
              arith,
              any-append is_failure spoken.1 [],
              any-append is_failure (spoken.1 ++ []) (
                  request_line r.method r.path (status (returned spoken.0)) a.clock.duration a.fresh
                  ∷ []),
              fit.failing,
            )),
      )
