-- ===== src/Tests/Upstream.antt =====
-- The provider's client against an upstream that knows one rate, and a retrier over answers that
-- fail twice.
use currency_quotes_service.Provider.Rates.{calls, rates, rates-Holds}
use currency_quotes_service.Prelude.{
  ◌<◌, ℕ, zero, suc, ◌≡◌, refl, ◌⊎◌, inl, true, [], ◌∷◌, some, pos, Text, codes, text_eq,
}
use currency_quotes_service.Domain.Errors.{
  Error, Result, ok, err, sentinel, wrapped, is, transient, deadline_exceeded,
}
use currency_quotes_service.Domain.Pair.{currencies, cut}
use currency_quotes_service.Provider.{Rate}
use currency_quotes_service.Provider.Client.{
  alive, answered, Http, Decoders, take, max_body_size, trim_slash, lookup, endpoint, fetch_rate,
  parse_rate, status_error,
}
use currency_quotes_service.Provider.Classification.{Holds, fetch_rate-transient}
use currency_quotes_service.Provider.Retrier.{
  Attempt, success, failure, permanent, Tries, new_retrier, schedule,
}
use currency_quotes_service.Provider.Retrier
use currency_quotes_service.Provider.Attempts.{
  Documented, Settled, all_transient, scripted, fetch_rate-Settled,
}
use currency_quotes_service.Tests.Sample.{eur_mxn}

abbrev body : Text
body = codes "{}"

abbrev upstream : ℕ → Http
upstream status = record {
  builds = λ _. true;
  send = λ _. answered status body;
  encode = λ _. codes "base=EUR&symbols=MXN";
}

abbrev one_rate : Decoders ℕ
one_rate = record {
  unmarshal = λ _. some (record { date = codes "2026-01-02"; rates = (codes "MXN", 5) ∷ [] });
  is_positive = λ _. true;
  parse_date = λ _. some 7;
}

fetches :
    fetch_rate one_rate (upstream 200) alive (codes "http://up/") eur_mxn
    ≡ ok (record { value = 5; date = 7 })
unfolding fetch_rate endpoint currencies cut trim_slash parse_rate lookup text_eq
fetches = refl

refuses :
    fetch_rate one_rate (upstream 429) alive (codes "http://up/") eur_mxn
    ≡ err (wrapped (sentinel transient))
unfolding fetch_rate status_error
refuses = refl

fetch_rate-transient_example : is transient (wrapped (sentinel transient)) ≡ true
fetch_rate-transient_example =
    fetch_rate-transient one_rate (upstream 429) alive (codes "http://up/") eur_mxn
      (wrapped (sentinel transient)) refuses

-- The library, in a context that is never done.
abbrev last_try : {S A : Type 0} → Attempt A × S → Result A × S
last_try (success a, s) = (ok a, s)
last_try (permanent e, s) = (err e, s)
last_try (failure e, s) = (err e, s)

abbrev try_on : {S A : Type 0} → (S → Result A × S) → Attempt A × S → Result A × S
try_on more (success a, s) = (ok a, s)
try_on more (permanent e, s) = (err e, s)
try_on more (failure e, s) = more s

abbrev keep_trying : {S A : Type 0} → Tries S A
keep_trying zero op s = last_try (op s)
keep_trying (suc zero) op s = last_try (op s)
keep_trying (suc (suc n)) op s = try_on (keep_trying (suc n) op) (op s)

module _ {S A : Type 0} where
  succeeds :
      (n : ℕ) (op : S → Attempt A × S) (s s' : S) (a : A)
      → op s ≡ (success a, s')
      → keep_trying (suc n) op s ≡ (ok a, s')
  succeeds zero op s s' a e = rw e refl
  succeeds (suc n) op s s' a e = rw e refl

  stops :
      (n : ℕ) (op : S → Attempt A × S) (s s' : S) (x : Error)
      → op s ≡ (permanent x, s')
      → (keep_trying (suc n) op s ≡ (err x, s'))
        ⊎ (keep_trying (suc n) op s ≡ (err (wrapped x), s'))
  stops zero op s s' x e = rw e (inl refl)
  stops (suc n) op s s' x e = rw e (inl refl)

keep_trying-Documented : {S A : Type 0} → Documented S A keep_trying (sentinel deadline_exceeded)
keep_trying-Documented = record {
  succeeds = succeeds;
  stops = stops;
  exhausts = λ op s s' x e. rw e refl;
  repeats = λ n op s s' x e. inl (rw e refl);
}

-- Two transient failures, and then a rate.
abbrev third_time : ℕ → Result (Rate ℕ)
third_time zero = err (wrapped (sentinel transient))
third_time (suc zero) = err (wrapped (sentinel transient))
third_time (suc (suc n)) = ok (record { value = 5; date = 7 })

fetch_rate-Settled_example : Settled third_time (sentinel deadline_exceeded) 2 0 (
    Retrier.fetch_rate
      (λ _. keep_trying)
      (new_retrier (pos 3) (pos 200_000_000))
      (scripted third_time)
      eur_mxn
      0)
fetch_rate-Settled_example =
    fetch_rate-Settled third_time (λ _. keep_trying) (sentinel deadline_exceeded) (pos 3)
      (pos 200_000_000) eur_mxn (λ s unlimited. keep_trying-Documented)

-- The retrier around the client, over an upstream that is overloaded twice.
abbrev recovering : ℕ → Http
recovering zero = upstream 503
recovering (suc zero) = upstream 429
recovering (suc (suc n)) = upstream 200

rates_third :
    rates one_rate
      (codes "http://up/")
      recovering
      (λ _. alive)
      (λ _. keep_trying)
      (pos 3)
      (pos 200_000_000)
      eur_mxn
    ≡ (ok (record { value = 5; date = 7 }), 3)
unfolding rates new_retrier Retrier.fetch_rate schedule fetch_rate endpoint currencies cut
    trim_slash parse_rate lookup text_eq status_error is
rates_third = refl

rates-Holds_example :
    (k : ℕ) × (k < 3)
    × (3 ≡ suc k)
    × (all_transient (calls one_rate (codes "http://up/") recovering (λ _. alive) eur_mxn) 0 k
        ≡ true)
    × (b : Text) × ((recovering k).send (endpoint (recovering k) (codes "http://up/") eur_mxn)
        ≡ answered 200 b)
    × Holds one_rate (take max_body_size b) (currencies eur_mxn).1 (record { value = 5; date = 7 })
rates-Holds_example =
    rates-Holds one_rate (codes "http://up/") recovering (λ _. alive) (λ _. keep_trying)
      (sentinel deadline_exceeded) (pos 3) (pos 200_000_000) eur_mxn
      (record { value = 5; date = 7 }) 3 (λ s unlimited. keep_trying-Documented) rates_third
