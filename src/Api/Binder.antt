-- ===== src/Api/Binder.antt =====
-- The binder of internal/api/contract/contract.gen.go: it reads the parameters of a request before a
-- handler sees it, and turns the request away with a ParamError where it cannot. The library that it
-- calls (github.com/oapi-codegen/runtime) is a parameter.
use currency_quotes_service.Prelude.{
  ℕ, List, [], ◌∷◌, Option, none, some, Text, codes, length, text_eq, find?,
}
use currency_quotes_service.Domain.Pair.{parse_pair}
use currency_quotes_service.Api.{
  ParamError, required_param, invalid_param_format, too_many_values, Writer, Wire,
  write_param_error,
}
use currency_quotes_service.Api.Handlers.{
  QuoteService, create_quote_update, get_quote_update, get_latest_quote,
}

-- The operations of `ServerInterface`.
pub data Operation : Type 0 where
  creates_update reads_update reads_latest : Operation

-- A request: its header and its query as lists of names with their values, and what the start of its
-- body, up to `maxRequestBody`, decodes to.
pub record Request : Type 0 where
  pub method : Text
  pub path : Text
  pub headers : List (Text × List Text)
  pub query : List (Text × List Text)
  pub body : Option Text

-- What the library makes of a required query parameter.
pub data Bound : Type 0 where
  bound : Text → Bound
  missing malformed : Bound

-- `runtime.BindQueryParameterWithOptions`, and `runtime.BindStyledParameterWithOptions` for a UUID.
pub record Runtime : Type 0 where
  pub query_parameter : Text → List (Text × List Text) → Bound
  pub styled_parameter : Text → Text → Option ℕ

abbrev values_of : Option (Text × List Text) → Option (List Text)
values_of none = none
values_of (some (name, values)) = some values

-- `headers[name]`.
abbrev pub header_values : Text → Request → Option (List Text)
header_values name r = values_of (find? (λ h. text_eq name h.0) r.headers)

abbrev pub pair_name : Text
pair_name = codes "pair"

abbrev pub key_name : Text
key_name = codes "Idempotency-Key"

abbrev pub id_name : Text
id_name = codes "id"

module _ {S Decimal W : Type 0} (svc : QuoteService S Decimal) (wire : Wire Decimal) (wide : ℕ → ℕ)
    (lib : Runtime) (out : Writer W) where
  -- `ErrorHandlerFunc`, which NewRouter sets to `writeParamError`.
  abbrev pub turn_away : ParamError → S → W × S
  turn_away e s = (write_param_error out (parse_pair wide []) e, s)

  abbrev pub read_bound : Bound → S → W × S
  read_bound (bound text) s = get_latest_quote svc wire wide out text s
  read_bound missing s = turn_away (required_param pair_name) s
  read_bound malformed s = turn_away (invalid_param_format pair_name) s

  -- `ServerInterfaceWrapper.GetLatestQuote`.
  unfoldable pub bind_latest_quote : Request → S → W × S
  bind_latest_quote r s = read_bound (lib.query_parameter pair_name r.query) s

  abbrev pub post_keyed : Option Text → Option ℕ → S → W × S
  post_keyed body none s = turn_away (invalid_param_format key_name) s
  post_keyed body (some key) s = create_quote_update svc wire wide out body (some key) s

  abbrev pub post_headed : Option Text → Option (List Text) → S → W × S
  post_headed body none s = create_quote_update svc wire wide out body none s
  post_headed body (some (value ∷ [])) s = post_keyed body (lib.styled_parameter key_name value) s
  post_headed body (some values) s = turn_away (too_many_values key_name (length values)) s

  -- `ServerInterfaceWrapper.CreateQuoteUpdate`.
  unfoldable pub bind_quote_update : Request → S → W × S
  bind_quote_update r s = post_headed r.body (header_values key_name r) s

  abbrev pub read_identified : Option ℕ → S → W × S
  read_identified none s = turn_away (invalid_param_format id_name) s
  read_identified (some id) s = get_quote_update svc wire wide out id s

  -- `ServerInterfaceWrapper.GetQuoteUpdate`; `segment` is the part of the path that stands for the
  -- identifier.
  unfoldable pub bind_update_id : Text → S → W × S
  bind_update_id segment s = read_identified (lib.styled_parameter id_name segment) s

  -- The methods of the wrapper by the operation.
  unfoldable pub bind : Operation → Text → Request → S → W × S
  bind creates_update segment r s = bind_quote_update r s
  bind reads_update segment r s = bind_update_id segment s
  bind reads_latest segment r s = bind_latest_quote r s
