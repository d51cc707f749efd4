-- ===== src/System/Latest/Answers.antt =====
-- What internal/api shows of the latest quote once a task of its pair has been completed.
use native.Mathlib.Nat.{mul-div-le}
use currency_quotes_service.Prelude.{
  ℕ, zero, suc, ◌*◌, ◌/◌, ◌≤◌, ◌≡◌, ◌≢◌, sym, subst, Bool, Text, arith,
}
use currency_quotes_service.Domain.Errors.{Result, ok, err}
use currency_quotes_service.Domain.Task.{UpdateTask, Quote}
use currency_quotes_service.Domain.Pair.{parse_pair}
use currency_quotes_service.Storage.World.{World, turn}
use currency_quotes_service.Storage.Repository as Postgres
use currency_quotes_service.Storage.Repository.{Decimals}
use currency_quotes_service.Storage.Invariant.{Inv}
use currency_quotes_service.Service.{State}
use currency_quotes_service.Service
use currency_quotes_service.Api.{
  writes, QuoteResponse, Body, Response, quote, answer, Wire, new_quote_response, normalise_time,
  write_internal,
}
use currency_quotes_service.Api.Handlers.{read_pair, found_quote, get_latest_quote}
use currency_quotes_service.Api.Contract.{served}
use currency_quotes_service.System.{Reach}
use currency_quotes_service.System.Latest.{AsNew, complete_task-latest}

-- Cutting a time to whole units keeps the order.
cut_mono : (s a b : ℕ) → a ≤ b → a / s * s ≤ b / s * s
cut_mono zero a b h = omega arith
cut_mono (suc s) a b h = grind (arith, mul-div-le)

module _ (decimals : Decimals) (ttl : ℕ) (wire : Wire decimals.Decimal) (wide : ℕ → ℕ) where
  -- Not the answer of a missing quote, and a quote only if it is not older than a time on the wire.
  abbrev pub AnswersAsNew : ℕ → Response → Type 0
  AnswersAsNew fetched_at r =
      ((b : Body) → r ≢ answer 404 b)
      × ((q : QuoteResponse)
          → r ≡ answer 200 (quote q)
          → normalise_time wire fetched_at ≤ q.fetched_at)

  found_quote-AsNew :
      (gone : Bool) (fetched_at : ℕ) (r : Result (Quote decimals.Decimal))
      → AsNew decimals fetched_at r
      → AnswersAsNew fetched_at (found_quote (served decimals ttl) wire wide (writes gone) r)
  unfolding normalise_time new_quote_response write_internal
  found_quote-AsNew gone fetched_at (ok q) h =
      (λ b e. ground arith, λ r e. ground (arith, cut_mono wire.second fetched_at q.fetched_at h))
  found_quote-AsNew gone fetched_at (err e) h = (λ b k. ground arith, λ r k. ground arith)

  -- Once the worker's CompleteTask has been answered without an error, GET /quotes/latest of its pair is
  -- never answered with the status 404, and with no quote that was fetched earlier, by the times on the
  -- wire, after any steps of the service, from tables that keep the invariant.
  pub get_latest_quote-delivered :
      (claim : UpdateTask) (rate : decimals.Decimal) (rate_date fetched_at : ℕ) (gone : Bool)
      (text : Text) (w w' : World) (u : State World)
      → Inv w'.db
      → Postgres.complete_task decimals claim rate rate_date fetched_at w ≡ (ok tt, w')
      → Reach w'.db ((turn u.store).others u.store.db)
      → parse_pair wide text ≡ ok claim.pair
      → AnswersAsNew fetched_at
          (get_latest_quote (served decimals ttl) wire wide (writes gone) text u).0
  unfolding get_latest_quote Service.get_latest_quote
  get_latest_quote-delivered claim rate rate_date fetched_at gone text w w' u v e reach parsed =
      subst
        (λ p.
          AnswersAsNew fetched_at (read_pair (served decimals ttl) wire wide (writes gone) p u).0)
        (sym parsed)
        (found_quote-AsNew gone fetched_at (Postgres.get_latest_quote decimals claim.pair u.store).0
          (complete_task-latest decimals claim rate rate_date fetched_at w w' u.store v e reach))
