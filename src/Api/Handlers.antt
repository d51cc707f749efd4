-- ===== src/Api/Handlers.antt =====
-- internal/api/handlers.go, over any service. A request comes as the generated binder hands it on: a
-- body that decodes to the text of a pair or does not, and parameters that are parsed.
use currency_quotes_service.Prelude.{ℕ, if◌then◌else◌, Option, none, some, Text, codes}
use currency_quotes_service.Domain.Errors.{Result, ok, err, is, key_conflict, not_found}
use currency_quotes_service.Domain.Task.{UpdateTask, Quote, TaskDetails}
use currency_quotes_service.Domain.Pair.{parse_pair}
use currency_quotes_service.Api.{
  error_code_invalid_request, error_code_key_conflict, error_code_not_found, fixed, wording,
  accepted, task, quote, Writer, Wire, new_accepted_response, new_task_response, new_quote_response,
  write_pair_error,
}

-- The interface `quoteService`.
pub record QuoteService (S Decimal : Type 0) : Type 0 where
  pub create_task : Text → Option ℕ → S → Result UpdateTask × S
  pub get_task : ℕ → S → Result (TaskDetails Decimal) × S
  pub get_latest_quote : Text → S → Result (Quote Decimal) × S

module _ {S Decimal W : Type 0} (svc : QuoteService S Decimal) (wire : Wire Decimal) (wide : ℕ → ℕ)
    (out : Writer W) where
  abbrev pub created : Result UpdateTask → W
  created (ok t) = out.json 202 (accepted (new_accepted_response t))
  created (err e) =
      if is key_conflict e
      then out.error_json 409 error_code_key_conflict (wording e)
      else out.internal

  abbrev pub post_pair : Result Text → Option ℕ → S → W × S
  post_pair (err e) key s = (write_pair_error out e, s)
  post_pair (ok pair) key s = let (r, s') = svc.create_task pair key s in (created r, s')

  -- `CreateQuoteUpdate`.
  unfoldable pub create_quote_update : Option Text → Option ℕ → S → W × S
  create_quote_update none key s = (
    out.error_json 400 error_code_invalid_request (fixed (codes "request body is not valid JSON")),
    s,
  )
  create_quote_update (some text) key s = post_pair (parse_pair wide text) key s

  abbrev pub found_task : Result (TaskDetails Decimal) → W
  found_task (ok d) = out.json 200 (task (new_task_response wire d))
  found_task (err e) =
      if is not_found e
      then out.error_json 404 error_code_not_found (fixed (codes "no update with this id"))
      else out.internal

  -- `GetQuoteUpdate`.
  unfoldable pub get_quote_update : ℕ → S → W × S
  get_quote_update id s = let (r, s') = svc.get_task id s in (found_task r, s')

  abbrev pub found_quote : Result (Quote Decimal) → W
  found_quote (ok q) = out.json 200 (quote (new_quote_response wire q))
  found_quote (err e) =
      if is not_found e
      then out.error_json 404 error_code_not_found
          (fixed (codes "this pair has not been quoted yet"))
      else out.internal

  abbrev pub read_pair : Result Text → S → W × S
  read_pair (err e) s = (write_pair_error out e, s)
  read_pair (ok pair) s = let (r, s') = svc.get_latest_quote pair s in (found_quote r, s')

  -- `GetLatestQuote`.
  unfoldable pub get_latest_quote : Text → S → W × S
  get_latest_quote text s = read_pair (parse_pair wide text) s
