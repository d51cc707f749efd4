-- ===== src/System/Requests.antt =====
-- A request to the router of internal/api, over the service and the repository of
-- internal/storage/postgres, among other processes.
use currency_quotes_service.Prelude.{ℕ, sym, subst, List, [], ◌∷◌, Option, none, some, Text}
use currency_quotes_service.Domain.Errors.{Result, ok, err}
use currency_quotes_service.Domain.Pair.{parse_pair}
use currency_quotes_service.Storage.World.{World}
use currency_quotes_service.Storage.Repository.{Decimals}
use currency_quotes_service.Service.{State}
use currency_quotes_service.Api.{Writer, Wire}
use currency_quotes_service.Api.Reports.{logging}
use currency_quotes_service.Api.Handlers.{
  post_pair, create_quote_update, get_quote_update, read_pair, get_latest_quote,
}
use currency_quotes_service.Api.Contract.{served}
use currency_quotes_service.Api.Binder.{
  Operation, creates_update, reads_update, reads_latest, Request, Bound, bound, missing, malformed,
  Runtime, header_values, pair_name, key_name, id_name, bind_latest_quote, bind_quote_update,
  bind_update_id, bind, read_bound, post_keyed, post_headed, read_identified,
}
use currency_quotes_service.Api.Middleware.{client_gone}
use currency_quotes_service.Api.Router.{
  Endpoint, healthz, operation, routes, Chi, Arrival, route, new_router, endpoint,
}
use currency_quotes_service.Api.Router.Chain.{inner, chain-run}
use currency_quotes_service.System.Acts.{Acts, Acts-refl}
use currency_quotes_service.System.Processes.{
  Ready, create_task-Stepping, get_task-Stepping, get_latest_quote-Stepping,
}

-- From the state that a request meets, to the one that it leaves.
abbrev From : {W : Type 0} → W × State World → State World → Type 0
From x s = Acts s.store x.1.store

module _ (decimals : Decimals) (ttl : ℕ) (wire : Wire decimals.Decimal) (wide : ℕ → ℕ) {W : Type 0}
    (out : Writer W) where
  post_pair-Steps :
      (p : Result Text) (key : Option ℕ) (s : State World)
      → Ready s.store
      → From (post_pair (served decimals ttl) wire wide out p key s) s
  post_pair-Steps (err e) key s h = Acts-refl s.store
  post_pair-Steps (ok pair) key s h = create_task-Stepping decimals ttl pair key s h

  read_pair-Steps :
      (p : Result Text) (s : State World)
      → Ready s.store
      → From (read_pair (served decimals ttl) wire wide out p s) s
  read_pair-Steps (err e) s h = Acts-refl s.store
  read_pair-Steps (ok pair) s h = get_latest_quote-Stepping decimals ttl pair s h

  pub create_quote_update-Steps :
      (body : Option Text) (key : Option ℕ) (s : State World)
      → Ready s.store
      → From (create_quote_update (served decimals ttl) wire wide out body key s) s
  unfolding create_quote_update
  create_quote_update-Steps none key s h = Acts-refl s.store
  create_quote_update-Steps (some text) key s h = post_pair-Steps (parse_pair wide text) key s h

module _ (decimals : Decimals) (ttl : ℕ) (wire : Wire decimals.Decimal) (wide : ℕ → ℕ)
    (lib : Runtime) {W : Type 0} (out : Writer W) where
  read_bound-Steps :
      (b : Bound) (s : State World)
      → Ready s.store
      → From (read_bound (served decimals ttl) wire wide lib out b s) s
  unfolding get_latest_quote
  read_bound-Steps (bound text) s h =
      read_pair-Steps decimals ttl wire wide out (parse_pair wide text) s h
  read_bound-Steps missing s h = Acts-refl s.store
  read_bound-Steps malformed s h = Acts-refl s.store

  post_keyed-Steps :
      (body : Option Text) (key : Option ℕ) (s : State World)
      → Ready s.store
      → From (post_keyed (served decimals ttl) wire wide lib out body key s) s
  post_keyed-Steps body none s h = Acts-refl s.store
  post_keyed-Steps body (some key) s h =
      create_quote_update-Steps decimals ttl wire wide out body (some key) s h

  post_headed-Steps :
      (body : Option Text) (values : Option (List Text)) (s : State World)
      → Ready s.store
      → From (post_headed (served decimals ttl) wire wide lib out body values s) s
  post_headed-Steps body none s h =
      create_quote_update-Steps decimals ttl wire wide out body none s h
  post_headed-Steps body (some []) s h = Acts-refl s.store
  post_headed-Steps body (some (v ∷ [])) s h =
      post_keyed-Steps body (lib.styled_parameter key_name v) s h
  post_headed-Steps body (some (v ∷ w ∷ vs)) s h = Acts-refl s.store

  read_identified-Steps :
      (id : Option ℕ) (s : State World)
      → Ready s.store
      → From (read_identified (served decimals ttl) wire wide lib out id s) s
  unfolding get_quote_update
  read_identified-Steps none s h = Acts-refl s.store
  read_identified-Steps (some id) s h = get_task-Stepping decimals ttl id s h

  bind-Steps :
      (op : Operation) (segment : Text) (r : Request) (s : State World)
      → Ready s.store
      → From (bind (served decimals ttl) wire wide lib out op segment r s) s
  unfolding bind bind_latest_quote bind_quote_update bind_update_id
  bind-Steps creates_update segment r s h = post_headed-Steps r.body (header_values key_name r) s h
  bind-Steps reads_update segment r s h =
      read_identified-Steps (lib.styled_parameter id_name segment) s h
  bind-Steps reads_latest segment r s h =
      read_bound-Steps (lib.query_parameter pair_name r.query) s h

module _ (decimals : Decimals) (ttl : ℕ) (wire : Wire decimals.Decimal) (wide : ℕ → ℕ)
    (lib : Runtime) (chi : Chi) (timeout : ℕ) (a : Arrival) (r : Request) where
  route-Steps :
      (f : Option (Endpoint × Text)) (s : State World)
      → Ready s.store
      → Acts s.store (route (served decimals ttl) wire wide lib chi timeout f a r s).1.store
  route-Steps none s h = Acts-refl s.store
  route-Steps (some (healthz, segment)) s h = Acts-refl s.store
  route-Steps (some (operation op, segment)) s h =
      let run =
        chain-run a timeout r
          (endpoint (served decimals ttl) wire wide lib chi timeout op segment a r) s in
      subst (λ x. Acts s.store x.1.store) (sym run)
        (bind-Steps decimals ttl wire wide lib
          (logging r (inner a timeout) (client_gone a.client (inner a timeout)) a.write_fails) op
          segment r s h)

  -- A request, whatever its route and its answer.
  pub new_router-Steps :
      (s : State World)
      → Ready s.store
      → Acts s.store (new_router (served decimals ttl) wire wide lib chi timeout a r s).1.store
  unfolding new_router
  new_router-Steps s h = route-Steps (chi.find routes r.method r.path) s h
