-- ===== src/Api/Reports.antt =====
-- What the handlers of internal/api log: `writeInternal`, `writeJSON` and `logAbandoned` of errors.go.
use currency_quotes_service.Prelude.{Bool, if◌then◌else◌, List, [], ◌∷◌}
use currency_quotes_service.Api.{Response, silence, answer, failure, Writer, write_internal}
use currency_quotes_service.Api.Binder.{Request}
use currency_quotes_service.Api.Middleware.{
  Line, failed_line, abandoned_line, write_line, Context, request_id_from,
}

module _ (r : Request) (ctx : Context) where
  -- `logAbandoned`.
  unfoldable pub log_abandoned : Line
  unfolding request_id_from
  log_abandoned = abandoned_line r.method r.path (request_id_from ctx)

  -- The lines of `writeInternal`.
  unfoldable pub internal_lines : Bool → List Line
  unfolding log_abandoned request_id_from
  internal_lines gone =
      if gone then log_abandoned ∷ [] else failed_line r.method r.path (request_id_from ctx) ∷ []

  -- The lines of `writeJSON`, by whether the body could not be written.
  unfoldable pub json_lines : Bool → Bool → List Line
  unfolding log_abandoned request_id_from
  json_lines gone fails =
      if fails
      then (if gone then log_abandoned ∷ [] else write_line (request_id_from ctx) ∷ [])
      else []

  -- The functions through which a handler answers, with the lines that they log: `writeErrorJSON` logs
  -- none.
  abbrev pub logging : Bool → Bool → Writer (Response × List Line)
  logging gone fails = record {
    json = λ status body. (answer status body, json_lines gone fails);
    error_json = λ status code message. (answer status (failure code message), []);
    internal = (write_internal gone, internal_lines gone);
    nothing = (silence, []);
  }
