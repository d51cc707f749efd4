-- ===== src/Api/Contract.antt =====
-- The whole service behind the handlers: internal/api over internal/service over the repository of
-- internal/storage/postgres, as main.go puts them together.
use currency_quotes_service.Prelude.{
  ℕ, ◌≡◌, refl, sym, ap, subst, ◌∙◌, ◌⊎◌, inl, inr, Bool, true, false, Option, none, some, Text,
  arith,
}
use currency_quotes_service.Domain.Errors.{Error, Result, ok, err}
use currency_quotes_service.Domain.Task.{UpdateTask, Quote, TaskDetails, is_done, is_failed}
use currency_quotes_service.Domain.Pair.{parse_pair, to_upper}
use currency_quotes_service.Domain.Pair.Laws.{parse_pair_iff}
use currency_quotes_service.Storage.Schema.{QuoteRow}
use currency_quotes_service.Storage.World.{World, turn}
use currency_quotes_service.Storage.Repository.{Decimals}
use currency_quotes_service.Storage.Repository as Postgres
use currency_quotes_service.Storage.Invariant.{Inv, Known}
use currency_quotes_service.Storage.Guarantee.{Rely, After}
use currency_quotes_service.Storage.Guarantee.Creation.{Answers, create_task-Safe}
use currency_quotes_service.Storage.Reading.{Consistent, Reads, get_task-Consistent}
use currency_quotes_service.Service.{State}
use currency_quotes_service.Service
use currency_quotes_service.Service.Wakes.{stored, create_task-answer, create_task-store}
use currency_quotes_service.Api.{
  writes, AcceptedResponse, TaskResponse, accepted, task, answer, Wire, new_task_response,
  new_accepted_response, write_internal, write_pair_error, with_quote,
}
use currency_quotes_service.Api.Handlers.{
  QuoteService, created, post_pair, create_quote_update, found_task, get_quote_update,
}

-- The service, as main.go hands it to the router.
abbrev pub served : (decimals : Decimals) → ℕ → QuoteService (State World) decimals.Decimal
served decimals ttl = record {
  create_task = Service.create_task (stored decimals ttl);
  get_task = Service.get_task (stored decimals ttl);
  get_latest_quote = Service.get_latest_quote (stored decimals ttl);
}

pub Result-cases :
    {A : Type 0} (r : Result A) → ((a : A) × (r ≡ ok a)) ⊎ ((e : Error) × (r ≡ err e))
Result-cases (ok a) = inl (a, refl)
Result-cases (err e) = inr (e, refl)

pub After-ok :
    {A : Type 0} (r : Result A × World) (Q : A → World → Type 0) (a : A)
    → After r Q
    → r.0 ≡ ok a
    → Q a r.1
After-ok (ok b, w) Q a q e = let same : b ≡ a = cc in subst (λ x. Q x w) same q
After-ok (err x, w) Q a q e = cc

abbrev has {ℓ} : {A : Type ℓ} → Option A → Bool
has none = false
has (some a) = true

-- The fields of a task on the wire: a rate, its date and the time of the fetch for a task that is
-- done and for no other, and an error for one that failed and for no other.
abbrev pub Coherent : TaskResponse → Type 0
Coherent r =
    (has r.rate ≡ is_done r.status)
    × (has r.rate_date ≡ is_done r.status)
    × (has r.fetched_at ≡ is_done r.status)
    × (has r.error ≡ is_failed r.status)

module _ (decimals : Decimals) (ttl : ℕ) (wire : Wire decimals.Decimal) (wide : ℕ → ℕ)
    (gone : Bool) where
  details-Coherent :
      (d : TaskDetails decimals.Decimal) (o : Option QuoteRow)
      → Consistent d.task o
      → Reads decimals d o
      → Coherent (new_task_response wire d)
  unfolding new_task_response
  details-Coherent d none c r = ground (arith, c.quoted, c.reasoned)
  details-Coherent d (some p) c r = ground (arith, c.quoted, c.reasoned)

  with_quote-update_id :
      (r : TaskResponse) (o : Option (Quote decimals.Decimal))
      → (with_quote wire r o).update_id ≡ r.update_id
  with_quote-update_id r none = refl
  with_quote-update_id r (some q) = refl

  response-update_id :
      (d : TaskDetails decimals.Decimal) → (new_task_response wire d).update_id ≡ d.task.id
  unfolding new_task_response
  response-update_id d = with_quote-update_id _ d.quote

  pub found_task-task :
      (f : Result (TaskDetails decimals.Decimal)) (r : TaskResponse)
      → found_task (served decimals ttl) wire wide (writes gone) f ≡ answer 200 (task r)
      → (d : TaskDetails decimals.Decimal) × (f ≡ ok d) × (r ≡ new_task_response wire d)
  unfolding write_internal
  found_task-task (ok d) r e = (d, refl, ground arith)
  found_task-task (err x) r e = ground arith

  created-accepted :
      (f : Result UpdateTask) (r : AcceptedResponse)
      → created (served decimals ttl) wire wide (writes gone) f ≡ answer 202 (accepted r)
      → (t : UpdateTask) × (f ≡ ok t) × (r.update_id ≡ t.id)
  unfolding write_internal new_accepted_response
  created-accepted (ok t) r e = (t, refl, ground arith)
  created-accepted (err x) r e = ground arith

  -- From tables that keep the invariant, a task that `GET /quotes/updates/{id}` answers with is the
  -- one asked for, and its fields are those of its status.
  pub get_quote_update-Coherent :
      (id : ℕ) (s s' : State World) (r : TaskResponse)
      → Inv ((turn s.store).others s.store.db)
      → get_quote_update (served decimals ttl) wire wide (writes gone) id s
        ≡ (answer 200 (task r), s')
      → (r.update_id ≡ id) × Coherent r
  unfolding get_quote_update Service.get_task
  get_quote_update-Coherent id s s' r v e =
      let (d, found, shape) =
        found_task-task (Postgres.get_task decimals id s.store).0 r (ap (λ x. x.0) e) in
      let (o, same, c, reads, _) =
        get_task-Consistent decimals id s.store (Postgres.get_task decimals id s.store).1 d v
          (ap (λ x. (x, (Postgres.get_task decimals id s.store).1)) found) in
      rw shape (response-update_id d ∙ same, details-Coherent d o c reads)

  posted-Known :
      (text pair : Text) (key : Option ℕ) (s s' : State World) (r : AcceptedResponse)
      → Rely s.store.script
      → Inv s.store.db
      → post_pair (served decimals ttl) wire wide (writes gone) (ok pair) key s
        ≡ (answer 202 (accepted r), s')
      → Known r.update_id pair s'.store.db
  posted-Known text pair key s s' r rely v e =
      let (t, made, same) =
        created-accepted (Service.create_task (stored decimals ttl) pair key s).0 r
          (ap (λ x. x.0) e) in
      let (known, own) =
        After-ok (Postgres.create_task ttl pair key s.store) (λ t w. Answers pair t w.db) t
          (create_task-Safe s.store ttl pair key rely v).1
          (sym (create_task-answer (stored decimals ttl) pair key s) ∙ made) in
      let end : s'.store ≡ (Postgres.create_task ttl pair key s.store).1 =
        sym (ap (λ x. x.1.store) e) ∙ create_task-store (stored decimals ttl) pair key s in
      rw end (rw same known)

  -- From tables that keep the invariant, and as long as others keep it and move the tables forward
  -- only, a post that is accepted answers with a task that stands in the table under the upper-cased
  -- pair of the post.
  pub create_quote_update-Known :
      (text : Text) (key : Option ℕ) (s s' : State World) (r : AcceptedResponse)
      → Rely s.store.script
      → Inv s.store.db
      → create_quote_update (served decimals ttl) wire wide (writes gone) (some text) key s
        ≡ (answer 202 (accepted r), s')
      → Known r.update_id (to_upper wide text) s'.store.db
  unfolding create_quote_update write_pair_error
  create_quote_update-Known text key s s' r rely v e = elim (Result-cases (parse_pair wide text)) [
    | inl (pair, parsed) ↦
        let upper : pair ≡ to_upper wide text = ((parse_pair_iff wide text pair).0 parsed).0 in
        let posted =
          subst
            (λ p.
              post_pair (served decimals ttl) wire wide (writes gone) p key s
              ≡ (answer 202 (accepted r), s'))
            parsed e in
        rw (sym upper) (posted-Known text pair key s s' r rely v posted)
    | inr (x, refused) ↦ ground (arith, refused)
  ]
