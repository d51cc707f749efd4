-- ===== src/Provider/Client.antt =====
-- internal/provider/frankfurter.go: one request for a rate, and how its failures are classified.
-- net/http, net/url, encoding/json, the decimal library and time.Parse are parameters. The wording of
-- errors is left out.
use currency_quotes_service.Prelude.{
  ℕ, zero, suc, Bool, ◌||◌, List, [], ◌∷◌, ◌++◌, Option, none, some, ◌==◌, leb, not, if◌then◌else◌,
  Text, codes, text_eq,
}
use currency_quotes_service.Domain.Errors.{
  Error, Result, ok, err, sentinel, foreign, wrapped, joined, transient, canceled,
  deadline_exceeded,
}
use currency_quotes_service.Domain.Pair.{currencies}
use currency_quotes_service.Provider.{Rate}

abbrev pub latest_path : Text
latest_path = codes "/v1/latest"

-- 64 << 10.
abbrev pub max_body_size : ℕ
max_body_size = 65536

-- What `io.LimitReader` lets through.
unfoldable pub take {ℓ} : {A : Type ℓ} → ℕ → List A → List A
take zero xs = []
take (suc n) [] = []
take (suc n) (x ∷ xs) = x ∷ take n xs

-- `strings.TrimSuffix(baseURL, "/")`.
unfoldable pub trim_slash : Text → Text
trim_slash [] = []
trim_slash (c ∷ []) = if c == b'/' then [] else c ∷ []
trim_slash (c ∷ d ∷ s) = c ∷ trim_slash (d ∷ s)

-- What `ctx.Err()` says when the exchange has failed.
pub data Context : Type 0 where
  alive cancelled timed_out : Context

-- What comes back for a request: an error of the transport, a body that cannot be read, or an answer.
pub data Reply : Type 0 where
  unsent : Reply
  unread : Reply
  answered : ℕ → Text → Reply

-- The libraries between the client and the upstream: whether a request can be built for a URL, what
-- is answered to it, and the encoding of a query.
pub record Http : Type 0 where
  pub builds : Text → Bool
  pub send : Text → Reply
  pub encode : List (Text × Text) → Text

-- `latestResponse`; the map is an association list.
pub record LatestResponse (Decimal : Type 0) : Type 0 where
  pub date : Text
  pub rates : List (Text × Decimal)

-- The libraries that read a body.
pub record Decoders (Decimal : Type 0) : Type 0 where
  pub unmarshal : Text → Option (LatestResponse Decimal)
  pub is_positive : Decimal → Bool
  pub parse_date : Text → Option ℕ

unfoldable pub lookup {ℓ} : {A : Type ℓ} → Text → List (Text × A) → Option A
lookup key [] = none
lookup key (e ∷ es) = let rest = lookup key es in if text_eq e.0 key then some e.1 else rest

-- `statusError`.
unfoldable pub status_error : ℕ → Error
status_error status =
    if status == 408 || status == 429 || leb 500 status
    then wrapped (sentinel transient)
    else foreign

-- An exchange that failed: the context's own error where it has ended, a transient one otherwise.
unfoldable pub interrupted : Context → Error
interrupted alive = joined (sentinel transient) foreign
interrupted cancelled = wrapped (sentinel canceled)
interrupted timed_out = wrapped (sentinel deadline_exceeded)

-- `Client.FetchRate`'s URL.
unfoldable pub endpoint : Http → Text → Text → Text
endpoint http base_url pair =
    let (base, quote) = currencies pair in
    trim_slash base_url
    ++ latest_path
    ++ codes "?"
    ++ http.encode ((codes "base", base) ∷ (codes "symbols", quote) ∷ [])

module _ {Decimal : Type 0} (decoders : Decoders Decimal) where
  abbrev pub dated : Decimal → Option ℕ → Result (Rate Decimal)
  dated value none = err (wrapped foreign)
  dated value (some date) = ok (record { value = value; date = date })

  abbrev pub priced : Text → Option Decimal → Result (Rate Decimal)
  priced date none = err foreign
  priced date (some value) =
      if not (decoders.is_positive value)
      then err foreign
      else dated value (decoders.parse_date date)

  abbrev pub decoded : Text → Option (LatestResponse Decimal) → Result (Rate Decimal)
  decoded quote none = err (wrapped foreign)
  decoded quote (some response) = priced response.date (lookup quote response.rates)

  -- `parseRate`.
  unfoldable pub parse_rate : Text → Text → Result (Rate Decimal)
  parse_rate body quote = decoded quote (decoders.unmarshal body)

  abbrev pub in_fetch : Result (Rate Decimal) → Result (Rate Decimal)
  in_fetch (ok rate) = ok rate
  in_fetch (err e) = err (wrapped e)

  abbrev pub received : Context → Text → Reply → Result (Rate Decimal)
  received ctx quote unsent = err (interrupted ctx)
  received ctx quote unread = err (interrupted ctx)
  received ctx quote (answered status body) =
      if not (status == 200)
      then err (status_error status)
      else in_fetch (parse_rate (take max_body_size body) quote)

  -- `Client.FetchRate`.
  unfoldable pub fetch_rate : Http → Context → Text → Text → Result (Rate Decimal)
  fetch_rate http ctx base_url pair =
      let url = endpoint http base_url pair in
      if not (http.builds url)
      then err (wrapped foreign)
      else received ctx (currencies pair).1 (http.send url)
