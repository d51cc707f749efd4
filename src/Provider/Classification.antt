-- ===== src/Provider/Classification.antt =====
-- The answers of internal/provider/frankfurter.go: which are a rate, and which failures are worth
-- another attempt.
use currency_quotes_service.Prelude.{
  ◌≡◌, refl, Bool, true, false, ◌&&◌, ◌||◌, some, ◌==◌, leb, Text, arith, Option-cases, Bool-cases,
  inl, inr,
}
use currency_quotes_service.Domain.Errors.{Error, Result, ok, err, is, transient}
use currency_quotes_service.Domain.Pair.{currencies}
use currency_quotes_service.Provider.{Rate}
use currency_quotes_service.Provider.Client.{
  Context, alive, cancelled, timed_out, Reply, unsent, unread, answered, Http, LatestResponse,
  Decoders, lookup, take, max_body_size, status_error, interrupted, endpoint, parse_rate,
  fetch_rate, received, in_fetch,
}

-- Failures that the upstream may not repeat: no whole answer while the caller waits, a timeout, too
-- many requests, or a failure of the server.
abbrev pub is_retriable : Context → Reply → Bool
is_retriable ctx (answered status body) = status == 408 || status == 429 || leb 500 status
is_retriable alive _ = true
is_retriable _ _ = false

module _ {Decimal : Type 0} (decoders : Decoders Decimal) where
  -- A body that holds the rate: it decodes, with a positive value for the currency and a date.
  abbrev pub Holds : Text → Text → Rate Decimal → Type 0
  Holds body quote rate =
      (r : LatestResponse Decimal) × (decoders.unmarshal body ≡ some r)
      × (lookup quote r.rates ≡ some rate.value)
      × (decoders.is_positive rate.value ≡ true)
      × (decoders.parse_date r.date ≡ some rate.date)

  parse_rate-Holds :
      (body quote : Text) (rate : Rate Decimal)
      → parse_rate decoders body quote ≡ ok rate
      → Holds body quote rate
  unfolding parse_rate
  parse_rate-Holds body quote rate e = elim (Option-cases (decoders.unmarshal body)) [
    | inl broken ↦ ground (arith, broken)
    | inr (r, read) ↦ elim (Option-cases (lookup quote r.rates)) [
      | inl missing ↦ ground (arith, read, missing)
      | inr (value, found) ↦ elim (Bool-cases (decoders.is_positive value)) [
        | inl positive ↦ elim (Option-cases (decoders.parse_date r.date)) [
          | inl undated ↦ ground (arith, read, found, positive, undated)
          | inr (date, day) ↦ ground (arith, read, found, positive, day)
        ]
        | inr not_positive ↦ ground (arith, read, found, not_positive)
      ]
    ]
  ]

  parse_rate-transient :
      (body quote : Text) (e : Error)
      → parse_rate decoders body quote ≡ err e
      → is transient e ≡ false
  unfolding parse_rate is
  parse_rate-transient body quote e h = ground arith

  received-Holds :
      (ctx : Context) (quote : Text) (reply : Reply) (rate : Rate Decimal)
      → received decoders ctx quote reply ≡ ok rate
      → (body : Text) × (reply ≡ answered 200 body) × Holds (take max_body_size body) quote rate
  received-Holds ctx quote unsent rate e = cc
  received-Holds ctx quote unread rate e = cc
  received-Holds ctx quote (answered status body) rate e = elim (Bool-cases (status == 200)) [
    | inl fine ↦
        let read : parse_rate decoders (take max_body_size body) quote ≡ ok rate =
          ground (arith, fine) in
        (body, ground (arith, fine), parse_rate-Holds (take max_body_size body) quote rate read)
    | inr refused ↦ ground (arith, refused)
  ]

  in_fetch-transient :
      (r : Result (Rate Decimal)) (e : Error)
      → ((x : Error) → r ≡ err x → is transient x ≡ false)
      → in_fetch decoders r ≡ err e
      → is transient e ≡ false
  unfolding is
  in_fetch-transient (ok rate) e h a = cc
  in_fetch-transient (err x) e h a = ground (arith, h x refl)

  received-transient :
      (ctx : Context) (quote : Text) (reply : Reply) (e : Error)
      → received decoders ctx quote reply ≡ err e
      → is transient e ≡ is_retriable ctx reply
  unfolding is status_error interrupted
  received-transient alive quote unsent e h = ground arith
  received-transient cancelled quote unsent e h = ground arith
  received-transient timed_out quote unsent e h = ground arith
  received-transient alive quote unread e h = ground arith
  received-transient cancelled quote unread e h = ground arith
  received-transient timed_out quote unread e h = ground arith
  received-transient ctx quote (answered status body) e h = elim (Bool-cases (status == 200)) [
    | inl fine ↦
        let read : in_fetch decoders (parse_rate decoders (take max_body_size body) quote) ≡ err e =
          ground (arith, fine) in
        let final =
          in_fetch-transient (parse_rate decoders (take max_body_size body) quote) e
            (parse_rate-transient (take max_body_size body) quote) read in
        ground (arith, final, fine)
    | inr refused ↦ ground (arith, refused)
  ]

  -- `FetchRate` answers a rate only from a whole answer with the status 200 whose body, cut to the
  -- size that is read, decodes to a positive value for the second currency of the pair and to a date;
  -- the rate is that value and that date.
  pub fetch_rate-Holds :
      (http : Http) (ctx : Context) (base_url pair : Text) (rate : Rate Decimal)
      → fetch_rate decoders http ctx base_url pair ≡ ok rate
      → (body : Text) × (http.send (endpoint http base_url pair) ≡ answered 200 body)
        × Holds (take max_body_size body) (currencies pair).1 rate
  unfolding fetch_rate
  fetch_rate-Holds http ctx base_url pair rate e =
      elim (Bool-cases (http.builds (endpoint http base_url pair))) [
        | inl built ↦
            received-Holds ctx (currencies pair).1 (http.send (endpoint http base_url pair)) rate
              (ground (arith, built))
        | inr unbuilt ↦ ground (arith, unbuilt)
      ]

  -- An error of `FetchRate` is marked transient exactly when the request was built and its reply is
  -- one that the upstream may not repeat.
  pub fetch_rate-transient :
      (http : Http) (ctx : Context) (base_url pair : Text) (e : Error)
      → fetch_rate decoders http ctx base_url pair ≡ err e
      → is transient e ≡ (
          http.builds (endpoint http base_url pair)
          && is_retriable ctx (http.send (endpoint http base_url pair)))
  unfolding fetch_rate is
  fetch_rate-transient http ctx base_url pair e h =
      elim (Bool-cases (http.builds (endpoint http base_url pair))) [
        | inl built ↦
            let same =
              received-transient ctx (currencies pair).1 (http.send (endpoint http base_url pair)) e
                (ground (arith, built)) in
            rw built same
        | inr unbuilt ↦ ground (arith, unbuilt)
      ]
