-- ===== src/System/Clients.antt =====
-- What clients of internal/api see over time: the answer to a finished update stays, and an update that
-- was accepted is found.
use currency_quotes_service.Prelude.{
  ℕ, ◌≡◌, ◌≢◌, refl, sym, ap, subst, ◌∙◌, inl, inr, Bool, true, false, Option, none, some, Text,
  find?, find?-none, any_mono, All-every, Option-cases, arith,
}
use currency_quotes_service.Domain.Errors.{Error, Result, ok, err, is, not_found}
use currency_quotes_service.Domain.Task.{UpdateTask, Quote, TaskDetails}
use currency_quotes_service.Domain.Pair.{to_upper}
use currency_quotes_service.Storage.Schema.{QuoteRow, Db, is_unfinished}
use currency_quotes_service.Storage.Statements.{has_id, select_task}
use currency_quotes_service.Storage.World.{World, turn, wrap, execute}
use currency_quotes_service.Storage.World.Laws.{call-eq_ok, call-eq_err, bind-give-eq_err}
use currency_quotes_service.Storage.Repository as Postgres
use currency_quotes_service.Storage.Repository.{
  Decimals, read_details, read_quote, select_task_call,
}
use currency_quotes_service.Storage.Invariant.{Inv, Known, is_task}
use currency_quotes_service.Storage.Progress.{Known-Progress}
use currency_quotes_service.Service.{State}
use currency_quotes_service.Service
use currency_quotes_service.Api.{
  writes, AcceptedResponse, TaskResponse, Body, accepted, task, answer, Wire, new_task_response,
  with_quote, write_internal,
}
use currency_quotes_service.Api.Handlers.{create_quote_update, found_task, get_quote_update}
use currency_quotes_service.Api.Contract.{served, found_task-task, create_quote_update-Known}
use currency_quotes_service.System.{Reach}
use currency_quotes_service.System.Steps.{Reach-Evolves}
use currency_quotes_service.System.Acts.{Among, Among-Rely, Acts-Inv}
use currency_quotes_service.System.Requests.{create_quote_update-Steps}
use currency_quotes_service.System.Settled.{get_task-settled}

module _ (decimals : Decimals) where
  read_details-known :
      (f : Option (UpdateTask × Option QuoteRow)) (e : Error)
      → read_details decimals f ≡ err e
      → is not_found e ≡ true
      → f ≡ none
  unfolding read_details read_quote is
  read_details-known none e h m = refl
  read_details-known (some (t, none)) e h m = cc
  read_details-known (some (t, some q)) e h m = ground arith

  get_task-missing :
      (id : ℕ) (w : World) (e : Error)
      → (Postgres.get_task decimals id w).0 ≡ err e
      → is not_found e ≡ true
      → select_task id ((turn w).others w.db) ≡ none
  unfolding Postgres.get_task is
  get_task-missing id w e h m =
      elim (bind-give-eq_err (wrap (execute (select_task_call id))) (read_details decimals) w e h) [
        | inl failed ↦
            let shape = call-eq_err (select_task_call id) w e failed in ground (arith, shape)
        | inr (f, called, read) ↦
            let seen = call-eq_ok (select_task_call id) w f _ called in
            ground (arith, read_details-known f e read m)
      ]

Known-selected : (id : ℕ) (pair : Text) (d : Db) → Known id pair d → select_task id d ≢ none
unfolding select_task
Known-selected id pair d k e = elim (Option-cases (find? (has_id id) d.tasks)) [
  | inl missing ↦ ground (
    arith,
    any_mono (is_task id pair) (has_id id) d.tasks (All-every _ d.tasks (λ r h. ground arith))
        (find?-none (has_id id) d.tasks missing),
  )
  | inr (r, found) ↦ ground (arith, found)
]

module _ (decimals : Decimals) (ttl : ℕ) (wire : Wire decimals.Decimal) (wide : ℕ → ℕ) where
  with_quote-status :
      (r : TaskResponse) (o : Option (Quote decimals.Decimal))
      → (with_quote wire r o).status ≡ r.status
  with_quote-status r none = refl
  with_quote-status r (some q) = refl

  response-status :
      (d : TaskDetails decimals.Decimal) → (new_task_response wire d).status ≡ d.task.status
  unfolding new_task_response
  response-status d = with_quote-status _ d.quote

  -- Once a client has read an update that is done or failed, every later answer with that update is the
  -- same, after any steps of the service, from tables that keep the invariant.
  pub get_quote_update-settled :
      (id : ℕ) (gone gone' : Bool) (s s' u u' : State World) (r r' : TaskResponse)
      → Inv ((turn s.store).others s.store.db)
      → get_quote_update (served decimals ttl) wire wide (writes gone) id s
        ≡ (answer 200 (task r), s')
      → is_unfinished r.status ≡ false
      → Reach s'.store.db ((turn u.store).others u.store.db)
      → get_quote_update (served decimals ttl) wire wide (writes gone') id u
        ≡ (answer 200 (task r'), u')
      → r' ≡ r
  unfolding get_quote_update Service.get_task
  get_quote_update-settled id gone gone' s s' u u' r r' v e f reach k =
      let (d, found, shape) =
        found_task-task decimals ttl wire wide gone (Postgres.get_task decimals id s.store).0 r
          (ap (λ x. x.0) e) in
      let (d', found', shape') =
        found_task-task decimals ttl wire wide gone' (Postgres.get_task decimals id u.store).0 r'
          (ap (λ x. x.0) k) in
      let after = (Postgres.get_task decimals id s.store).1 in
      let end : s'.store ≡ after = sym (ap (λ x. x.1.store) e) in
      let same =
        get_task-settled decimals id s.store after u.store (Postgres.get_task decimals id u.store).1
          d d' v (ap (λ x. (x, after)) found) (rw (shape, response-status d) at f)
          (subst (λ x. Reach x.db ((turn u.store).others u.store.db)) end reach)
          (ap (λ x. (x, (Postgres.get_task decimals id u.store).1)) found') in
      shape' ∙ ap (new_task_response wire) same ∙ sym shape

  found_task-missing :
      (gone : Bool) (f : Result (TaskDetails decimals.Decimal)) (body : Body)
      → found_task (served decimals ttl) wire wide (writes gone) f ≡ answer 404 body
      → (e : Error) × (f ≡ err e) × (is not_found e ≡ true)
  unfolding write_internal
  found_task-missing gone (ok d) body h = ground arith
  found_task-missing gone (err e) body h = (e, refl, ground arith)

  -- An update that was accepted is never answered with the status 404 afterwards, after any steps of
  -- the service, from tables that keep the invariant and where others do steps of the service.
  pub create_quote_update-found :
      (text : Text) (key : Option ℕ) (gone gone' : Bool) (s s' u : State World)
      (r : AcceptedResponse) (body : Body)
      → Among s.store.script
      → Inv s.store.db
      → create_quote_update (served decimals ttl) wire wide (writes gone) (some text) key s
        ≡ (answer 202 (accepted r), s')
      → Reach s'.store.db ((turn u.store).others u.store.db)
      → (get_quote_update (served decimals ttl) wire wide (writes gone') r.update_id u).0
        ≢ answer 404 body
  unfolding get_quote_update Service.get_task
  create_quote_update-found text key gone gone' s s' u r body among v e reach h =
      let rely = Among-Rely s.store.script among in
      let known = create_quote_update-Known decimals ttl wire wide gone text key s s' r rely v e in
      let left : Inv s'.store.db =
        subst (λ x. Inv x.1.store.db) e
          (Acts-Inv s.store _
            (create_quote_update-Steps decimals ttl wire wide (writes gone) (some text) key s
              (among, v))
            v) in
      let (x, failed, missing) =
        found_task-missing gone' (Postgres.get_task decimals r.update_id u.store).0 body h in
      let kept =
        Known-Progress r.update_id (to_upper wide text) s'.store.db
          ((turn u.store).others u.store.db) (Reach-Evolves reach left).progress known in
      Known-selected r.update_id (to_upper wide text) ((turn u.store).others u.store.db) kept
        (get_task-missing decimals r.update_id u.store x failed missing)
