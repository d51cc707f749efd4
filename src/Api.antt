-- ===== src/Api.antt =====
-- internal/api: what a client is answered with. dto.go and errors.go are here, the handlers in
-- Handlers.
pub mod Handlers
pub mod Envelope
pub mod Contract
pub mod Binder
pub mod Enums
pub mod Faults
pub mod Middleware
pub mod Reports
pub mod Router
use currency_quotes_service.Prelude.{
  ℕ, ◌*◌, ◌/◌, Bool, true, false, if◌then◌else◌, [], ◌∷◌, ◌++◌, Option, none, some, Text, codes,
  text_eq,
}
use currency_quotes_service.Domain.Errors.{Error, Result, ok, err}
use currency_quotes_service.Domain.Task.{Status, UpdateTask, Quote, TaskDetails}

-- `contract.ErrorCode`.
pub data ErrorCode : Type 0 where
  error_code_internal_error error_code_invalid_pair error_code_invalid_request
        error_code_key_conflict error_code_not_found :
      ErrorCode

-- The message of an envelope: a fixed text, or the wording of an error.
pub data Message : Type 0 where
  fixed : Text → Message
  wording : Error → Message

pub record AcceptedResponse : Type 0 where
  pub update_id : ℕ
  pub status : Status

pub record TaskResponse : Type 0 where
  pub update_id : ℕ
  pub pair : Text
  pub status : Status
  pub error : Option Text
  pub rate : Option Text
  pub rate_date : Option ℕ
  pub fetched_at : Option ℕ

pub record QuoteResponse : Type 0 where
  pub pair : Text
  pub rate : Text
  pub rate_date : ℕ
  pub fetched_at : ℕ
  pub update_id : ℕ

pub data Body : Type 0 where
  accepted : AcceptedResponse → Body
  task : TaskResponse → Body
  quote : QuoteResponse → Body
  failure : ErrorCode → Message → Body
  health : Body

-- What is written: a status with a body, or nothing for a client that has gone.
pub data Response : Type 0 where
  silence : Response
  answer : ℕ → Body → Response

-- `decimal.StringFixed`, and how many units of time are a second.
pub record Wire (Decimal : Type 0) : Type 0 where
  pub string_fixed : ℕ → Decimal → Text
  pub second : ℕ

abbrev pub rate_scale : ℕ
rate_scale = 10

-- `newAcceptedResponse`.
unfoldable pub new_accepted_response : UpdateTask → AcceptedResponse
new_accepted_response t = record { update_id = t.id; status = t.status }

-- `if d.Task.Error != ""`.
abbrev pub shown : Text → Option Text
shown [] = none
shown (c ∷ s) = some (c ∷ s)

module _ {Decimal : Type 0} (wire : Wire Decimal) where
  -- `formatRate`.
  unfoldable pub format_rate : Decimal → Text
  format_rate d = wire.string_fixed rate_scale d

  -- `normaliseTime`, on a time counted from a whole second.
  unfoldable pub normalise_time : ℕ → ℕ
  normalise_time t = t / wire.second * wire.second

  abbrev pub with_quote : TaskResponse → Option (Quote Decimal) → TaskResponse
  with_quote r none = r
  with_quote r (some q) = record r {
    rate = some (format_rate q.rate);
    rate_date = some q.rate_date;
    fetched_at = some (normalise_time q.fetched_at);
  }

  -- `newTaskResponse`.
  unfoldable pub new_task_response : TaskDetails Decimal → TaskResponse
  new_task_response d =
      with_quote
        (record {
          update_id = d.task.id;
          pair = d.task.pair;
          status = d.task.status;
          error = shown d.task.error;
          rate = none;
          rate_date = none;
          fetched_at = none;
        })
        d.quote

  -- `newQuoteResponse`.
  unfoldable pub new_quote_response : Quote Decimal → QuoteResponse
  new_quote_response q = record {
    pair = q.pair;
    rate = format_rate q.rate;
    rate_date = q.rate_date;
    fetched_at = normalise_time q.fetched_at;
    update_id = q.update_id;
  }

abbrev pub internal_error_message : Text
internal_error_message = codes "internal error"

-- What is written by `writeInternal`; `gone` is `clientGone` of the request.
unfoldable pub write_internal : Bool → Response
write_internal gone =
    if gone
    then silence
    else answer 500 (failure error_code_internal_error (fixed internal_error_message))

-- The functions through which a handler answers: `writeJSON`, `writeErrorJSON`, `writeInternal`, and
-- none of them.
pub record Writer (W : Type 0) : Type 0 where
  pub json : ℕ → Body → W
  pub error_json : ℕ → ErrorCode → Message → W
  pub internal : W
  pub nothing : W

-- What they write.
abbrev pub writes : Bool → Writer Response
writes gone = record {
  json = answer;
  error_json = λ status code message. answer status (failure code message);
  internal = write_internal gone;
  nothing = silence;
}

-- The errors of the generated binder, each with the name of the parameter and without the error that
-- it wraps; the last with the number of values.
pub data ParamError : Type 0 where
  unescaped_cookie_param unmarshaling_param required_param required_header invalid_param_format :
      Text → ParamError
  too_many_values : Text → ℕ → ParamError

module _ {W : Type 0} (out : Writer W) where
  -- `writePairError`.
  unfoldable pub write_pair_error : Error → W
  write_pair_error e = out.error_json 400 error_code_invalid_pair (wording e)

  -- The refusal of a text, which `ParsePair` never accepts here: it is the empty one.
  abbrev pub pair_refusal : Result Text → W
  pair_refusal (err e) = write_pair_error e
  pair_refusal (ok p) = out.nothing

  abbrev pub invalid_request : Text → W
  invalid_request message = out.error_json 400 error_code_invalid_request (fixed message)

  -- `writeParamError`; `parsed` is what `ParsePair` says of the empty text.
  unfoldable pub write_param_error : Result Text → ParamError → W
  write_param_error parsed (required_param name) =
      if text_eq name (codes "pair") then pair_refusal parsed else out.internal
  write_param_error parsed (invalid_param_format name) =
      if text_eq name (codes "id")
      then invalid_request (codes "update id is not a valid UUID")
      else if text_eq name (codes "Idempotency-Key")
      then invalid_request (codes "Idempotency-Key is not a valid UUID")
      else out.internal
  write_param_error parsed (too_many_values name count) =
      invalid_request (name ++ codes " must be sent once")
  write_param_error parsed (unescaped_cookie_param name) = out.internal
  write_param_error parsed (unmarshaling_param name) = out.internal
  write_param_error parsed (required_header name) = out.internal
