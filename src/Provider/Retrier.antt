-- ===== src/Provider/Retrier.antt =====
-- internal/provider/retry.go: the attempts at a rate. The library github.com/cenkalti/backoff is a
-- parameter, the function `Retry` with its options; its pauses have no effect on the state.
use currency_quotes_service.Prelude.{ℕ, not, if◌then◌else◌, ℤ, pos, pos_part, ltbℤ, Text}
use currency_quotes_service.Domain.Errors.{Error, Result, ok, err, is, transient}
use currency_quotes_service.Provider.{Rate}

-- What an operation tells the library: a value, an error, or an error marked by `backoff.Permanent`.
pub data Attempt (A : Type 0) : Type 0 where
  success : A → Attempt A
  failure : Error → Attempt A
  permanent : Error → Attempt A

-- The options of `backoff.Retry`: the fields of the exponential schedule, with the randomisation in
-- per cent and durations in nanoseconds, and the limit of the elapsed time, where 0 is none.
pub record Schedule : Type 0 where
  pub initial_interval : ℤ
  pub multiplier : ℕ
  pub randomization : ℕ
  pub max_elapsed_time : ℕ

-- `backoff.Retry` with the limit of its tries, over the state that the operation changes.
abbrev pub Tries : Type 0 → Type 0 → Type 0
Tries S A = ℕ → (S → Attempt A × S) → S → Result A × S

abbrev pub Retry : Type 0 → Type 0 → Type 0
Retry S A = Schedule → Tries S A

-- `Retrier`, without the provider that it wraps.
pub record Retrier : Type 0 where
  pub attempts : ℤ
  pub backoff : ℤ

-- `NewRetrier`: below one, the number of attempts is raised to one.
unfoldable pub new_retrier : ℤ → ℤ → Retrier
new_retrier attempts backoff = record {
  attempts = if ltbℤ attempts (pos 1) then pos 1 else attempts;
  backoff = backoff;
}

-- Half to one and a half times the nominal pause.
abbrev pub jitter : ℕ
jitter = 50

-- The schedule that is built for each call.
unfoldable pub schedule : Retrier → Schedule
schedule r = record {
  initial_interval = r.backoff;
  multiplier = 2;
  randomization = jitter;
  max_elapsed_time = 0;
}

module _ {S Decimal : Type 0} where
  abbrev pub attempt : Result (Rate Decimal) × S → Attempt (Rate Decimal) × S
  attempt (ok rate, s) = (success rate, s)
  attempt (err e, s) = (if not (is transient e) then permanent e else failure e, s)

  -- `Retrier.FetchRate`, over the provider `next`.
  unfoldable pub fetch_rate :
      Retry S (Rate Decimal)
      → Retrier
      → (Text → S → Result (Rate Decimal) × S)
      → Text
      → S
      → Result (Rate Decimal) × S
  fetch_rate retry r next pair =
      retry (schedule r) (pos_part r.attempts) (λ s. attempt (next pair s))
