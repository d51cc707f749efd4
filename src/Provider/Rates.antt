-- ===== src/Provider/Rates.antt =====
-- The provider that main.go hands to the workers: a Retrier of retry.go around a Client of frankfurter.go.
use currency_quotes_service.Prelude.{
  ℕ, suc, ◌+◌, ◌-◌, ◌≡◌, sym, subst, ◌<◌, true, inl, inr, Text, ℤ, arith,
}
use currency_quotes_service.Domain.Errors.{Error, Result, ok, err}
use currency_quotes_service.Domain.Pair.{currencies}
use currency_quotes_service.Provider.{Rate}
use currency_quotes_service.Provider.Client.{
  Http, Context, Decoders, Reply, answered, take, max_body_size, endpoint,
}
use currency_quotes_service.Provider.Client
use currency_quotes_service.Provider.Classification.{Holds, fetch_rate-Holds}
use currency_quotes_service.Provider.Retrier.{Retry, Retrier, new_retrier}
use currency_quotes_service.Provider.Retrier as Retrying
use currency_quotes_service.Provider.Attempts.{
  Unlimited, Settled, Settles, all_transient, scripted, most, fetch_rate-Settled,
}

module _ {Decimal : Type 0} (decoders : Decoders Decimal) (base_url : Text) (http : ℕ → Http)
    (context : ℕ → Context) where
  -- The answers of the client, call by call; what it meets may change from one to the next.
  abbrev pub calls : Text → ℕ → Result (Rate Decimal)
  calls pair k = Client.fetch_rate decoders (http k) (context k) base_url pair

  -- `NewRetrier` around `NewClient`, asked for one pair.
  unfoldable pub rates : Retry ℕ (Rate Decimal) → ℤ → ℤ → Text → Result (Rate Decimal) × ℕ
  rates retry attempts backoff pair =
      Retrying.fetch_rate retry (new_retrier attempts backoff) (scripted (calls pair)) pair 0

  last_answer :
      (ended : Error) (pair : Text) (x : Result (Rate Decimal)) (rate : Rate Decimal)
      → Settles (calls pair) ended x (ok rate)
      → x ≡ ok rate
  last_answer ended pair (ok r) rate h = sym h
  last_answer ended pair (err e) rate (inl h) = cc
  last_answer ended pair (err e) rate (inr (inl h)) = cc
  last_answer ended pair (err e) rate (inr (inr (t, h))) = cc

  -- With a library that keeps what it documents, a rate that the workers are given is that of the last
  -- call of the upstream: a whole answer with the status 200 whose body, cut to the size that is read,
  -- holds it; there were at most as many calls as attempts are configured, or one where that is less
  -- than one, and every earlier one was a transient failure.
  pub rates-Holds :
      (retry : Retry ℕ (Rate Decimal)) (ended : Error) (attempts backoff : ℤ) (pair : Text)
      (rate : Rate Decimal) (made : ℕ)
      → Unlimited ℕ (Rate Decimal) retry ended
      → rates retry attempts backoff pair ≡ (ok rate, made)
      → (k : ℕ) × (k < most attempts)
        × (made ≡ suc k)
        × (all_transient (calls pair) 0 k ≡ true)
        × (body : Text) × ((http k).send (endpoint (http k) base_url pair) ≡ answered 200 body)
        × Holds decoders (take max_body_size body) (currencies pair).1 rate
  unfolding rates
  rates-Holds retry ended attempts backoff pair rate made library e =
      let (k, below, count, failed, settles) =
        subst (Settled (calls pair) ended (most attempts - 1) 0) e
          (fetch_rate-Settled (calls pair) retry ended attempts backoff pair library) in
      let start : 0 + k ≡ k = omega arith in
      let last = last_answer ended pair (calls pair k) rate (rw start at settles) in
      let (body, sent, holds) =
        fetch_rate-Holds decoders (http k) (context k) base_url pair rate last in
      (k, ground arith, rw start at count, failed, body, sent, holds)
