-- ===== src/Api/Router/Refusals.antt =====
-- The requests that the router of internal/api/router.go refuses with the status 400, and the state of
-- the service after them.
use currency_quotes_service.Prelude.{
  ℕ, ◌≡◌, ◌≢◌, refl, sym, ap, ◌∙◌, Bool, List, [], ◌∷◌, Option, none, some, Text, Bool-cases, inl,
  inr, arith,
}
use currency_quotes_service.Domain.Errors.{Result, ok, err, is, key_conflict, not_found}
use currency_quotes_service.Domain.Task.{UpdateTask, Quote, TaskDetails}
use currency_quotes_service.Domain.Pair.{parse_pair}
use currency_quotes_service.Api.{Writer, Wire, Body, ErrorCode, Message, write_internal}
use currency_quotes_service.Api.Reports.{logging}
use currency_quotes_service.Api.Handlers.{
  QuoteService, created, post_pair, create_quote_update, found_task, get_quote_update, found_quote,
  read_pair, get_latest_quote,
}
use currency_quotes_service.Api.Binder.{
  Operation, creates_update, reads_update, reads_latest, Request, Bound, bound, missing, malformed,
  Runtime, header_values, pair_name, key_name, id_name, bind_latest_quote, bind_quote_update,
  bind_update_id, bind, read_bound, post_keyed, post_headed, read_identified,
}
use currency_quotes_service.Api.Middleware.{Context, Served, returned, client_gone, status}
use currency_quotes_service.Api.Router.{
  Endpoint, healthz, operation, routes, Chi, Arrival, route, new_router, endpoint,
}
use currency_quotes_service.Api.Router.Chain.{inner, after, chain-run}

-- The status of what a handler has done through the functions of `out`: an internal error is none with
-- the status 400.
record Statused {W : Type 0} (out : Writer W) (st : W → ℕ) : Type 0 where
  internal : st out.internal ≢ 400
  json : (n : ℕ) (b : Body) → n ≢ 400 → st (out.json n b) ≢ 400
  error_json :
      (n : ℕ) (code : ErrorCode) (m : Message) → n ≢ 400 → st (out.error_json n code m) ≢ 400

logging-Statused :
    (r : Request) (ctx : Context) (gone fails : Bool)
    → Statused (logging r ctx gone fails) (λ x. status (returned x.0))
unfolding status write_internal
logging-Statused r ctx gone fails = record {
  internal = λ h. ground arith;
  json = λ n b h. h;
  error_json = λ n code m h. h;
}

module _ {S Decimal : Type 0} (svc : QuoteService S Decimal) (wire : Wire Decimal) (wide : ℕ → ℕ)
    (lib : Runtime) {W : Type 0} (out : Writer W) (st : W → ℕ) (laws : Statused out st) where
  created-refused : (r : Result UpdateTask) → st (created svc wire wide out r) ≢ 400
  created-refused (ok t) h = laws.json 202 _ (λ z. ground (arith, z)) h
  created-refused (err e) h = elim (Bool-cases (is key_conflict e)) [
    | inl conflict ↦ laws.error_json 409 _ _ (λ z. ground (arith, z)) (rw conflict at h)
    | inr other ↦ laws.internal (rw other at h)
  ]

  found_task-refused :
      (r : Result (TaskDetails Decimal)) → st (found_task svc wire wide out r) ≢ 400
  found_task-refused (ok d) h = laws.json 200 _ (λ z. ground (arith, z)) h
  found_task-refused (err e) h = elim (Bool-cases (is not_found e)) [
    | inl absent ↦ laws.error_json 404 _ _ (λ z. ground (arith, z)) (rw absent at h)
    | inr other ↦ laws.internal (rw other at h)
  ]

  found_quote-refused : (r : Result (Quote Decimal)) → st (found_quote svc wire wide out r) ≢ 400
  found_quote-refused (ok q) h = laws.json 200 _ (λ z. ground (arith, z)) h
  found_quote-refused (err e) h = elim (Bool-cases (is not_found e)) [
    | inl absent ↦ laws.error_json 404 _ _ (λ z. ground (arith, z)) (rw absent at h)
    | inr other ↦ laws.internal (rw other at h)
  ]

  -- An answer with the status 400 comes with the state that was met.
  abbrev Refuses : W × S → S → Type 0
  Refuses x s = st x.0 ≡ 400 → x.1 ≡ s

  post_pair-Refuses :
      (p : Result Text) (key : Option ℕ) (s : S) → Refuses (post_pair svc wire wide out p key s) s
  post_pair-Refuses (err e) key s h = refl
  post_pair-Refuses (ok pair) key s h = absurd (created-refused (svc.create_task pair key s).0 h)

  read_pair-Refuses : (p : Result Text) (s : S) → Refuses (read_pair svc wire wide out p s) s
  read_pair-Refuses (err e) s h = refl
  read_pair-Refuses (ok pair) s h = absurd (found_quote-refused (svc.get_latest_quote pair s).0 h)

  create_quote_update-Refuses :
      (body : Option Text) (key : Option ℕ) (s : S)
      → Refuses (create_quote_update svc wire wide out body key s) s
  unfolding create_quote_update
  create_quote_update-Refuses none key s = λ _. refl
  create_quote_update-Refuses (some text) key s = post_pair-Refuses (parse_pair wide text) key s

  get_quote_update-Refuses : (id : ℕ) (s : S) → Refuses (get_quote_update svc wire wide out id s) s
  unfolding get_quote_update
  get_quote_update-Refuses id s h = absurd (found_task-refused (svc.get_task id s).0 h)

  read_bound-Refuses : (b : Bound) (s : S) → Refuses (read_bound svc wire wide lib out b s) s
  unfolding get_latest_quote
  read_bound-Refuses (bound text) s = read_pair-Refuses (parse_pair wide text) s
  read_bound-Refuses missing s = λ _. refl
  read_bound-Refuses malformed s = λ _. refl

  post_keyed-Refuses :
      (body : Option Text) (key : Option ℕ) (s : S)
      → Refuses (post_keyed svc wire wide lib out body key s) s
  post_keyed-Refuses body none s = λ _. refl
  post_keyed-Refuses body (some key) s = create_quote_update-Refuses body (some key) s

  post_headed-Refuses :
      (body : Option Text) (values : Option (List Text)) (s : S)
      → Refuses (post_headed svc wire wide lib out body values s) s
  post_headed-Refuses body none s = create_quote_update-Refuses body none s
  post_headed-Refuses body (some []) s = λ _. refl
  post_headed-Refuses body (some (v ∷ [])) s =
      post_keyed-Refuses body (lib.styled_parameter key_name v) s
  post_headed-Refuses body (some (v ∷ w ∷ vs)) s = λ _. refl

  read_identified-Refuses :
      (id : Option ℕ) (s : S) → Refuses (read_identified svc wire wide lib out id s) s
  read_identified-Refuses none s = λ _. refl
  read_identified-Refuses (some id) s = get_quote_update-Refuses id s

  bind-Refuses :
      (op : Operation) (segment : Text) (r : Request) (s : S)
      → Refuses (bind svc wire wide lib out op segment r s) s
  unfolding bind bind_latest_quote bind_quote_update bind_update_id
  bind-Refuses creates_update segment r s = post_headed-Refuses r.body (header_values key_name r) s
  bind-Refuses reads_update segment r s =
      read_identified-Refuses (lib.styled_parameter id_name segment) s
  bind-Refuses reads_latest segment r s =
      read_bound-Refuses (lib.query_parameter pair_name r.query) s

module _ {S Decimal : Type 0} (svc : QuoteService S Decimal) (wire : Wire Decimal) (wide : ℕ → ℕ)
    (lib : Runtime) (chi : Chi) (timeout : ℕ) (a : Arrival) (r : Request) where
  route-refused :
      (f : Option (Endpoint × Text)) (s s' : S) (v : Served)
      → route svc wire wide lib chi timeout f a r s ≡ (some v, s')
      → status v.ending ≡ 400
      → s' ≡ s
  route-refused none s s' v e h = sym (ap (λ p. p.1) e)
  route-refused (some (healthz, segment)) s s' v e h = sym (ap (λ p. p.1) e)
  route-refused (some (operation op, segment)) s s' v e h =
      let gone = client_gone a.client (inner a timeout) in
      let out = logging r (inner a timeout) gone a.write_fails in
      let run = chain-run a timeout r (endpoint svc wire wide lib chi timeout op segment a r) s in
      let same : after a timeout r (endpoint svc wire wide lib chi timeout op segment a r) s
          ≡ (v, s') =
        cc in
      let reached = sym run ∙ same in
      ap (λ p. p.1) (sym reached)
      ∙ bind-Refuses svc wire wide lib out (λ x. status (returned x.0))
          (logging-Statused r (inner a timeout) gone a.write_fails) op segment r s
          (ap (λ p. status p.0.ending) reached ∙ h)

  -- A request that the router answers with the status 400 leaves the state of the service as it was.
  pub new_router-refused :
      (s s' : S) (v : Served)
      → new_router svc wire wide lib chi timeout a r s ≡ (some v, s')
      → status v.ending ≡ 400
      → s' ≡ s
  unfolding new_router
  new_router-refused s s' v e h = route-refused (chi.find routes r.method r.path) s s' v e h
