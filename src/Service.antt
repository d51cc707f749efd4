-- ===== src/Service.antt =====
-- The package internal/service: the operations that the HTTP layer offers, over a repository and
-- the channel that wakes a worker.
pub mod Wakes
use currency_quotes_service.Prelude.{ℕ, Bool, true, Option, Text, if◌then◌else◌}
use currency_quotes_service.Domain.Errors.{Result, ok, err}
use currency_quotes_service.Domain.Task.{UpdateTask, Quote, TaskDetails, is_pending}

-- The interface `repository`, over the state that its implementation keeps.
pub record Repository (S Decimal : Type 0) : Type 0 where
  pub create_task : Text → Option ℕ → S → Result UpdateTask × S
  pub get_task : ℕ → S → Result (TaskDetails Decimal) × S
  pub get_latest_quote : Text → S → Result (Quote Decimal) × S

-- The state of the repository, and whether the channel of capacity one holds a signal.
pub record State (S : Type 0) : Type 0 where
  pub store : S
  pub wake : Bool

-- `notify`: a send that does not block fills the channel, or is dropped where it is full.
unfoldable pub notify : Bool → Bool
notify wake = true

module _ {S Decimal : Type 0} (repo : Repository S Decimal) where
  abbrev after_create : Result UpdateTask × S → Bool → Result UpdateTask × State S
  after_create (err e, s) wake = (err e, record { store = s; wake = wake })
  after_create (ok task, s) wake =
      (ok task, record { store = s; wake = if is_pending task.status then notify wake else wake })

  -- `Service.CreateTask`.
  unfoldable pub create_task : Text → Option ℕ → State S → Result UpdateTask × State S
  create_task pair key s = after_create (repo.create_task pair key s.store) s.wake

  abbrev kept {ℓ} : {A : Type ℓ} → A × S → Bool → A × State S
  kept (a, s) wake = (a, record { store = s; wake = wake })

  -- `Service.GetTask`.
  unfoldable pub get_task : ℕ → State S → Result (TaskDetails Decimal) × State S
  get_task id s = kept (repo.get_task id s.store) s.wake

  -- `Service.GetLatestQuote`.
  unfoldable pub get_latest_quote : Text → State S → Result (Quote Decimal) × State S
  get_latest_quote pair s = kept (repo.get_latest_quote pair s.store) s.wake
