-- ===== src/Api/Router/Answers.antt =====
-- What the router of internal/api/router.go answers with, over any service, router library and binder
-- library.
use currency_quotes_service.Prelude.{
  ℕ, ◌≡◌, refl, ap, Bool, false, List, [], ◌∷◌, Option, none, some, Text, text_eq,
}
use currency_quotes_service.Domain.Pair.{parse_pair, check_pair, cut, to_upper}
use currency_quotes_service.Api.{
  required_param, invalid_param_format, Response, Writer, Wire, write_internal, write_pair_error,
  write_param_error,
}
use currency_quotes_service.Api.Handlers.{QuoteService}
use currency_quotes_service.Api.Envelope.{
  IsFit, Fits, writes-Fits, create_quote_update-Fits, reads-Fits, write_param_error-Fits,
}
use currency_quotes_service.Api.Binder.{
  Operation, creates_update, reads_update, reads_latest, Request, Bound, bound, missing, malformed,
  Runtime, header_values, pair_name, key_name, id_name, bind_latest_quote, bind_quote_update,
  bind_update_id, bind, read_bound, post_keyed, post_headed, read_identified,
}
use currency_quotes_service.Api.Reports.{logging}
use currency_quotes_service.Api.Middleware.{Context, Served, Ending, returned, client_gone, status}
use currency_quotes_service.Api.Router.{operation, routes, Chi, Arrival, new_router, endpoint}
use currency_quotes_service.Api.Router.Chain.{inner, after, chain-run}

module _ {S Decimal : Type 0} (svc : QuoteService S Decimal) (wire : Wire Decimal) (wide : ℕ → ℕ)
    (lib : Runtime) {W : Type 0} (out : Writer W) (P : Operation → W → Type 0)
    (fits : Fits out P) where
  read_bound-Fits : (b : Bound) (s : S) → P reads_latest (read_bound svc wire wide lib out b s).0
  read_bound-Fits (bound text) s = (reads-Fits svc wire wide out P fits 0 text s).1
  read_bound-Fits missing s =
      write_param_error-Fits out P fits wide reads_latest (required_param pair_name)
  read_bound-Fits malformed s =
      write_param_error-Fits out P fits wide reads_latest (invalid_param_format pair_name)

  post_keyed-Fits :
      (body : Option Text) (key : Option ℕ) (s : S)
      → P creates_update (post_keyed svc wire wide lib out body key s).0
  post_keyed-Fits body none s =
      write_param_error-Fits out P fits wide creates_update (invalid_param_format key_name)
  post_keyed-Fits body (some key) s =
      create_quote_update-Fits svc wire wide out P fits body (some key) s

  post_headed-Fits :
      (body : Option Text) (values : Option (List Text)) (s : S)
      → P creates_update (post_headed svc wire wide lib out body values s).0
  post_headed-Fits body none s = create_quote_update-Fits svc wire wide out P fits body none s
  post_headed-Fits body (some []) s = write_param_error-Fits out P fits wide creates_update _
  post_headed-Fits body (some (v ∷ [])) s = post_keyed-Fits body (lib.styled_parameter key_name v) s
  post_headed-Fits body (some (v ∷ w ∷ vs)) s =
      write_param_error-Fits out P fits wide creates_update _

  read_identified-Fits :
      (id : Option ℕ) (s : S) → P reads_update (read_identified svc wire wide lib out id s).0
  read_identified-Fits none s =
      write_param_error-Fits out P fits wide reads_update (invalid_param_format id_name)
  read_identified-Fits (some id) s = (reads-Fits svc wire wide out P fits id [] s).0

  pub bind-Fits :
      (op : Operation) (segment : Text) (r : Request) (s : S)
      → P op (bind svc wire wide lib out op segment r s).0
  unfolding bind bind_latest_quote bind_quote_update bind_update_id
  bind-Fits creates_update segment r s = post_headed-Fits r.body (header_values key_name r) s
  bind-Fits reads_update segment r s = read_identified-Fits (lib.styled_parameter id_name segment) s
  bind-Fits reads_latest segment r s = read_bound-Fits (lib.query_parameter pair_name r.query) s

logging-Fits :
    (r : Request) (ctx : Context) (gone fails : Bool)
    → Fits (logging r ctx gone fails) (λ op x. IsFit op gone x.0)
logging-Fits r ctx gone fails =
    let fits = writes-Fits gone in
    record {
      internal = fits.internal;
      refused = fits.refused;
      accepts = fits.accepts;
      tells = fits.tells;
      quotes = fits.quotes;
    }

-- The status for a pair that was not read.
abbrev pub HasUnboundStatus : Bound → Ending → Type 0
HasUnboundStatus (bound text) e = Unit
HasUnboundStatus missing e = status e ≡ 400
HasUnboundStatus malformed e = status e ≡ 500

module _ {S Decimal : Type 0} (svc : QuoteService S Decimal) (wire : Wire Decimal) (wide : ℕ → ℕ)
    (lib : Runtime) (chi : Chi) (timeout : ℕ) (a : Arrival) (r : Request) where
  -- A request that the router finds an operation for is answered with what the operation may answer
  -- with: its own body, an envelope whose status is that of its code, or nothing, which it is only when
  -- the client hung up before the deadline of the request. The header names the request.
  pub new_router-IsFit :
      (op : Operation) (segment : Text) (s : S)
      → chi.find routes r.method r.path ≡ some (operation op, segment)
      → (v : Served) × (x : Response) × (((new_router svc wire wide lib chi timeout a r s).0
            ≡ some v)
          × (v.ending ≡ returned x)
          × (v.header ≡ some a.fresh)
          × IsFit op (client_gone a.client (inner a timeout)) x)
  unfolding new_router
  new_router-IsFit op segment s e =
      let gone = client_gone a.client (inner a timeout) in
      let out = logging r (inner a timeout) gone a.write_fails in
      let answered = bind svc wire wide lib out op segment r s in
      let run = chain-run a timeout r (endpoint svc wire wide lib chi timeout op segment a r) s in
      let v = (after a timeout r (endpoint svc wire wide lib chi timeout op segment a r) s).0 in
      (
        v,
        answered.0.0,
        (
          rw e refl,
          ap (λ p. p.0.ending) run,
          ap (λ p. p.0.header) run,
          bind-Fits svc wire wide lib out (λ op x. IsFit op gone x.0)
              (logging-Fits r (inner a timeout) gone a.write_fails) op segment r s,
        ),
      )

  -- A request for the latest quote whose pair the binder cannot read is answered with the status 400
  -- where the pair was not sent, and with the status 500 where it was sent but does not bind, as long
  -- as the client has not hung up before the deadline.
  pub new_router-unbound :
      (segment : Text) (s : S) (b : Bound)
      → chi.find routes r.method r.path ≡ some (operation reads_latest, segment)
      → client_gone a.client (inner a timeout) ≡ false
      → lib.query_parameter pair_name r.query ≡ b
      → (v : Served) × ((new_router svc wire wide lib chi timeout a r s).0 ≡ some v)
        × HasUnboundStatus b v.ending
  unfolding new_router bind bind_latest_quote status write_param_error write_internal
      write_pair_error parse_pair check_pair cut to_upper text_eq
  new_router-unbound segment s b e here read =
      let next = endpoint svc wire wide lib chi timeout reads_latest segment a r in
      let run = chain-run a timeout r next s in
      (
        (after a timeout r next s).0,
        rw e refl,
        rw (ap (λ p. p.0.ending) run) (rw read (unbound b here)),
      )
    where
      unbound :
          (b : Bound)
          → client_gone a.client (inner a timeout) ≡ false
          → let out =
              logging r (inner a timeout) (client_gone a.client (inner a timeout)) a.write_fails in
            HasUnboundStatus b (returned (read_bound svc wire wide lib out b s).0.0)
      unbound (bound text) here = tt
      unbound missing here = refl
      unbound malformed here = rw here refl
