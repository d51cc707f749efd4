-- ===== src/Api/Envelope.antt =====
-- The answers of internal/api/handlers.go: which statuses and codes go together, and what an envelope
-- may say.
use currency_quotes_service.Prelude.{
  [], codes, text_eq, ℕ, ◌≡◌, refl, inl, inr, Bool, true, false, Option, none, some, Text,
  Bool-cases, arith,
}
use currency_quotes_service.Domain.Errors.{
  Error, Result, ok, err, is, key_conflict, not_found, sentinel, rejected_pair, not_in_form,
  foreign, wrapped, joined,
}
use currency_quotes_service.Domain.Task.{UpdateTask, Quote, TaskDetails}
use currency_quotes_service.Domain.Pair.{parse_pair, check_pair, cut, to_upper}
use currency_quotes_service.Api.{
  ParamError, required_param, invalid_param_format, too_many_values, unescaped_cookie_param,
  unmarshaling_param, required_header, write_param_error, ErrorCode, error_code_internal_error,
  error_code_invalid_pair, error_code_invalid_request, error_code_key_conflict,
  error_code_not_found, Message, fixed, wording, accepted, task, quote, failure, Response, silence,
  answer, Wire, internal_error_message, write_pair_error, write_internal, Writer, writes,
  AcceptedResponse, TaskResponse, QuoteResponse,
}
use currency_quotes_service.Api.Handlers.{
  QuoteService, created, post_pair, create_quote_update, found_task, get_quote_update, found_quote,
  read_pair, get_latest_quote,
}
use currency_quotes_service.Api.Binder.{Operation, creates_update, reads_update, reads_latest}

-- An error that `ParsePair` words, or a conflict of keys.
abbrev pub is_told : Error → Bool
is_told (rejected_pair f) = true
is_told e = is key_conflict e

-- A message that says nothing of the inside of the service: the one text of an internal error, and
-- otherwise a fixed text or the wording of an error that the client caused.
abbrev pub IsSafe : ErrorCode → Message → Type 0
IsSafe error_code_internal_error (fixed text) = text ≡ internal_error_message
IsSafe error_code_internal_error (wording e) = ⊥
IsSafe code (fixed text) = Unit
IsSafe code (wording e) = is_told e ≡ true

-- What an envelope of this code promises of its status.
abbrev pub status_of : ErrorCode → ℕ
status_of error_code_internal_error = 500
status_of error_code_invalid_pair = 400
status_of error_code_invalid_request = 400
status_of error_code_key_conflict = 409
status_of error_code_not_found = 404

abbrev pub is_internal : ErrorCode → Bool
is_internal error_code_internal_error = true
is_internal _ = false

-- What an operation may answer with: its own body with its own status, an envelope, or nothing when
-- the client has gone.
abbrev pub IsFit : Operation → Bool → Response → Type 0
IsFit op gone silence = gone ≡ true
IsFit op gone (answer status (failure code message)) =
    (status ≡ status_of code) × IsSafe code message
IsFit creates_update gone (answer status (accepted r)) = status ≡ 202
IsFit reads_update gone (answer status (task r)) = status ≡ 200
IsFit reads_latest gone (answer status (quote r)) = status ≡ 200
IsFit op gone (answer status body) = ⊥

check_pair-told :
    (s : Text) (c : Text × Text × Bool) (e : Error) → check_pair s c ≡ err e → is_told e ≡ true
unfolding check_pair
check_pair-told s (base, second, found) e h = ground arith

-- What every function that a handler answers through has to keep, for a predicate on what it does: an
-- internal error, an envelope of a client's error, and the body of each operation with its status.
pub record Fits {W : Type 0} (out : Writer W) (P : Operation → W → Type 0) : Type 0 where
  pub internal : (op : Operation) → P op out.internal
  pub refused :
      (op : Operation) (code : ErrorCode) (m : Message)
      → is_internal code ≡ false
      → IsSafe code m
      → P op (out.error_json (status_of code) code m)
  pub accepts : (r : AcceptedResponse) → P creates_update (out.json 202 (accepted r))
  pub tells : (r : TaskResponse) → P reads_update (out.json 200 (task r))
  pub quotes : (r : QuoteResponse) → P reads_latest (out.json 200 (quote r))

pub writes-Fits : (gone : Bool) → Fits (writes gone) (λ op. IsFit op gone)
unfolding write_internal
writes-Fits gone = record {
  internal = internal gone;
  refused = refused gone;
  accepts = λ r. refl;
  tells = λ r. refl;
  quotes = λ r. refl;
}
  where
    internal : (gone : Bool) (op : Operation) → IsFit op gone (write_internal gone)
    internal true op = refl
    internal false op = (refl, refl)

    refused :
        (gone : Bool) (op : Operation) (code : ErrorCode) (m : Message)
        → is_internal code ≡ false
        → IsSafe code m
        → IsFit op gone (answer (status_of code) (failure code m))
    refused gone op code m client safe = (refl, safe)

told_conflict : (e : Error) → is key_conflict e ≡ true → is_told e ≡ true
unfolding is
told_conflict (rejected_pair f) h = refl
told_conflict (sentinel s) h = h
told_conflict foreign h = h
told_conflict (wrapped x) h = h
told_conflict (joined x y) h = h

empty_pair : (wide : ℕ → ℕ) → parse_pair wide [] ≡ err (rejected_pair (not_in_form []))
unfolding parse_pair check_pair cut to_upper
empty_pair wide = refl

module _ {W : Type 0} (out : Writer W) (P : Operation → W → Type 0) (fits : Fits out P) where
  refusal-Fits : (op : Operation) (e : Error) → is_told e ≡ true → P op (write_pair_error out e)
  unfolding write_pair_error
  refusal-Fits op e h = fits.refused op error_code_invalid_pair (wording e) refl h

  -- A request that the binder turns away is answered as an internal error or with an envelope of a
  -- client's error, whose message is a fixed text or the wording of the error of an empty pair.
  pub write_param_error-Fits :
      (wide : ℕ → ℕ) (op : Operation) (e : ParamError)
      → P op (write_param_error out (parse_pair wide []) e)
  unfolding write_param_error
  write_param_error-Fits wide op (required_param name) =
      elim (Bool-cases (text_eq name (codes "pair"))) [
        | inl pair ↦ rw pair (rw (empty_pair wide) (refusal-Fits op _ refl))
        | inr other ↦ rw other (fits.internal op)
      ]
  write_param_error-Fits wide op (invalid_param_format name) =
      elim (Bool-cases (text_eq name (codes "id"))) [
        | inl id ↦ rw id (fits.refused op error_code_invalid_request _ refl tt)
        | inr not_id ↦ elim (Bool-cases (text_eq name (codes "Idempotency-Key"))) [
          | inl key ↦ rw not_id (rw key (fits.refused op error_code_invalid_request _ refl tt))
          | inr other ↦ rw not_id (rw other (fits.internal op))
        ]
      ]
  write_param_error-Fits wide op (too_many_values name count) =
      fits.refused op error_code_invalid_request _ refl tt
  write_param_error-Fits wide op (unescaped_cookie_param name) = fits.internal op
  write_param_error-Fits wide op (unmarshaling_param name) = fits.internal op
  write_param_error-Fits wide op (required_header name) = fits.internal op

module _ {S Decimal : Type 0} (svc : QuoteService S Decimal) (wire : Wire Decimal) (wide : ℕ → ℕ)
    {W : Type 0} (out : Writer W) (P : Operation → W → Type 0) (fits : Fits out P) where
  created-Fits : (r : Result UpdateTask) → P creates_update (created svc wire wide out r)
  created-Fits (ok t) = fits.accepts _
  created-Fits (err e) = elim (Bool-cases (is key_conflict e)) [
    | inl conflict ↦ rw conflict (
        fits.refused creates_update error_code_key_conflict (wording e) refl
          (told_conflict e conflict))
    | inr other ↦ rw other (fits.internal creates_update)
  ]

  found_task-Fits :
      (r : Result (TaskDetails Decimal)) → P reads_update (found_task svc wire wide out r)
  found_task-Fits (ok d) = fits.tells _
  found_task-Fits (err e) = elim (Bool-cases (is not_found e)) [
    | inl missing ↦ rw missing (fits.refused reads_update error_code_not_found _ refl tt)
    | inr other ↦ rw other (fits.internal reads_update)
  ]

  found_quote-Fits : (r : Result (Quote Decimal)) → P reads_latest (found_quote svc wire wide out r)
  found_quote-Fits (ok q) = fits.quotes _
  found_quote-Fits (err e) = elim (Bool-cases (is not_found e)) [
    | inl missing ↦ rw missing (fits.refused reads_latest error_code_not_found _ refl tt)
    | inr other ↦ rw other (fits.internal reads_latest)
  ]

  post-Fits :
      (text : Text) (p : Result Text) (key : Option ℕ) (s : S)
      → parse_pair wide text ≡ p
      → P creates_update (post_pair svc wire wide out p key s).0
  unfolding parse_pair
  post-Fits text (ok pair) key s e = created-Fits (svc.create_task pair key s).0
  post-Fits text (err x) key s e =
      refusal-Fits out P fits creates_update x (check_pair-told text (cut (to_upper wide text)) x e)

  read-Fits :
      (text : Text) (p : Result Text) (s : S)
      → parse_pair wide text ≡ p
      → P reads_latest (read_pair svc wire wide out p s).0
  unfolding parse_pair
  read-Fits text (ok pair) s e = found_quote-Fits (svc.get_latest_quote pair s).0
  read-Fits text (err x) s e =
      refusal-Fits out P fits reads_latest x (check_pair-told text (cut (to_upper wide text)) x e)

  -- A post is answered with an accepted task, or as `Fits` says of an error.
  pub create_quote_update-Fits :
      (text : Option Text) (key : Option ℕ) (s : S)
      → P creates_update (create_quote_update svc wire wide out text key s).0
  unfolding create_quote_update
  create_quote_update-Fits none key s =
      fits.refused creates_update error_code_invalid_request _ refl tt
  create_quote_update-Fits (some text) key s = post-Fits text (parse_pair wide text) key s refl

  -- The two reads are answered with what was read, or as `Fits` says of an error.
  pub reads-Fits :
      (id : ℕ) (text : Text) (s : S)
      → P reads_update (get_quote_update svc wire wide out id s).0
        × P reads_latest (get_latest_quote svc wire wide out text s).0
  unfolding get_quote_update get_latest_quote
  reads-Fits id text s =
      (found_task-Fits (svc.get_task id s).0, read-Fits text (parse_pair wide text) s refl)
