-- ===== src/System/Delivery/Answers.antt =====
-- What internal/api shows of a completed task: the answers of GET /quotes/updates/{id} and of GET
-- /quotes/latest.
use currency_quotes_service.Prelude.{ℕ, ◌≡◌, ap, ◌∙◌, Bool, none, some, arith}
use currency_quotes_service.Domain.Errors.{ok}
use currency_quotes_service.Domain.Task.{UpdateTask, TaskDetails, done}
use currency_quotes_service.Storage.World.{World, turn}
use currency_quotes_service.Storage.Repository as Postgres
use currency_quotes_service.Storage.Repository.{Decimals}
use currency_quotes_service.Storage.Invariant.{Inv}
use currency_quotes_service.Service.{State}
use currency_quotes_service.Service
use currency_quotes_service.Api.{
  writes, TaskResponse, task, answer, Wire, new_task_response, format_rate, normalise_time,
}
use currency_quotes_service.Api.Handlers.{get_quote_update}
use currency_quotes_service.Api.Contract.{served, found_task-task}
use currency_quotes_service.System.{Reach}
use currency_quotes_service.System.Delivery.{Delivered, complete_task-Delivered}

module _ (decimals : Decimals) (wire : Wire decimals.Decimal) where
  -- The answer to a client of an update that is done, for the rate that was read back.
  unfoldable pub shown_done : UpdateTask → decimals.Decimal → ℕ → ℕ → TaskResponse
  unfolding format_rate normalise_time
  shown_done claim rate rate_date fetched_at = record {
    update_id = claim.id;
    pair = claim.pair;
    status = done;
    error = none;
    rate = some (format_rate wire rate);
    rate_date = some rate_date;
    fetched_at = some (normalise_time wire fetched_at);
  }

  Delivered-shown :
      (claim : UpdateTask) (rate : decimals.Decimal) (rate_date fetched_at : ℕ)
      (details : TaskDetails decimals.Decimal)
      → Delivered decimals claim rate rate_date fetched_at details
      → (n : ℕ) × (x : decimals.Decimal) × (decimals.to_numeric rate ≡ some n)
        × (decimals.of_numeric n ≡ some x)
        × (new_task_response wire details ≡ shown_done claim x rate_date fetched_at)
  unfolding shown_done new_task_response
  Delivered-shown claim rate rate_date fetched_at details d =
      let (id, pair, status, error, q, quoted, update_id, own, date, time, n, cast, value) = d in
      (n, q.rate, cast, value, ground arith)

module _ (decimals : Decimals) (ttl : ℕ) (wire : Wire decimals.Decimal) (wide : ℕ → ℕ)
    (claim : UpdateTask) (rate : decimals.Decimal) (rate_date fetched_at : ℕ) where
  -- Once the worker's CompleteTask has been answered without an error, GET /quotes/updates/{id} answers
  -- with nothing else than the update done, its rate that of the worker as the database and the decimal
  -- library convert it, with its date and the time of the fetch, after any steps of the service, from
  -- tables that keep the invariant.
  pub get_quote_update-delivered :
      (gone : Bool) (w w' : World) (u u' : State World) (r : TaskResponse)
      → Inv w'.db
      → Postgres.complete_task decimals claim rate rate_date fetched_at w ≡ (ok tt, w')
      → Reach w'.db ((turn u.store).others u.store.db)
      → get_quote_update (served decimals ttl) wire wide (writes gone) claim.id u
        ≡ (answer 200 (task r), u')
      → (n : ℕ) × (x : decimals.Decimal) × (decimals.to_numeric rate ≡ some n)
        × (decimals.of_numeric n ≡ some x)
        × (r ≡ shown_done decimals wire claim x rate_date fetched_at)
  unfolding get_quote_update Service.get_task
  get_quote_update-delivered gone w w' u u' r v e reach k =
      let (d, found, shape) =
        found_task-task decimals ttl wire wide gone (Postgres.get_task decimals claim.id u.store).0
          r (ap (λ x. x.0) k) in
      let delivered =
        complete_task-Delivered decimals claim rate rate_date fetched_at w w' u.store
          (Postgres.get_task decimals claim.id u.store).1 d v e reach
          (ap (λ x. (x, (Postgres.get_task decimals claim.id u.store).1)) found) in
      let (n, x, cast, value, same) =
        Delivered-shown decimals wire claim rate rate_date fetched_at d delivered in
      (n, x, cast, value, shape ∙ same)
