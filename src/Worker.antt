-- ===== src/Worker.antt =====
-- internal/worker/worker.go: one worker of the pool, over the interface `repository`. What the
-- provider answers, what the context says when it is asked, and the clock are observations.
pub mod Reasons
pub mod Loop
pub mod Recovery
pub mod Discipline
pub mod Guarantee
pub mod Draining
pub mod Calls
pub mod Pacing
pub mod Serving
use currency_quotes_service.Provider.{Rate}
use currency_quotes_service.Prelude.{
  ℕ, suc, ◌+◌, ◌-◌, Bool, true, false, ◌||◌, List, [], ◌∷◌, ◌++◌, Option, none, some, Text, ◌==◌,
  leb, ltb, if◌then◌else◌,
}
use currency_quotes_service.Domain.Errors.{Error, Result, ok, err, is, stale_claim}
use currency_quotes_service.Domain.Task.{UpdateTask}
use Reasons.{failure_reason}

-- The interface `repository`, over the state that its implementation keeps.
pub record Repository (S Decimal : Type 0) : Type 0 where
  pub claim_task : S → Result (Option UpdateTask) × S
  pub complete_task : UpdateTask → Decimal → ℕ → ℕ → S → Result (Unit {0}) × S
  pub fail_task : UpdateTask → Text → S → Result (Unit {0}) × S
  pub release_task : UpdateTask → S → Result (Unit {0}) × S

-- What `ctx.Err()` says: nil, context.Canceled or context.DeadlineExceeded.
pub data Ctx : Type 0 where
  live stopped expired : Ctx

abbrev pub is_stopped : Ctx → Bool
is_stopped stopped = true
is_stopped _ = false

-- The operation that a finalisation names in the log.
pub data Op : Type 0 where
  complete fail : Op

-- The lines of the log.
pub data Line : Type 0 where
  task_done : Line
  fetch_failed : Text → Line
  deadline_exceeded released_back left_in_progress : Line
  claim_lost finalisation_error : Op → Line
  claim_error claim_recovered : ℕ → Line

-- What a worker observes of one task: the answer of the provider and its time, and the context after
-- the fetch and after a finalisation that failed.
pub record Observed (Decimal : Type 0) : Type 0 where
  pub fetched : Result (Rate Decimal)
  pub fetched_at : ℕ
  pub after_fetch : Ctx
  pub after_finalise : Ctx

module _ {S Decimal : Type 0} (repo : Repository S Decimal) (provider_attempts : ℕ) where
  abbrev release_line : Result (Unit {0}) → Line
  release_line (ok _) = released_back
  release_line (err _) = left_in_progress

  -- `Worker.release`, on a context of its own.
  unfoldable pub release : UpdateTask → S → List Line × S
  release claim s = let (r, s') = repo.release_task claim s in (release_line r ∷ [], s')

  abbrev and_line : Line → List Line × S → List Line × S
  and_line l (ls, s) = (l ∷ ls, s)

  -- `Worker.finalisationFailed`.
  unfoldable pub finalisation_failed : Ctx → UpdateTask → Op → Error → S → List Line × S
  finalisation_failed ctx claim op e s =
      if is stale_claim e
      then (claim_lost op ∷ [], s)
      else if is_stopped ctx
      then and_line (finalisation_error op) (release claim s)
      else (finalisation_error op ∷ [], s)

  abbrev after_fail : Ctx → UpdateTask → Result (Unit {0}) × S → List Line × S
  after_fail ctx claim (ok _, s) = ([], s)
  after_fail ctx claim (err e, s) = finalisation_failed ctx claim fail e s

  -- `Worker.fail`.
  unfoldable pub fail_claim : Ctx → UpdateTask → Error → S → List Line × S
  fail_claim ctx claim e s =
      let reason = failure_reason provider_attempts e in
      and_line (fetch_failed reason) (after_fail ctx claim (repo.fail_task claim reason s))

  abbrev after_complete : Ctx → UpdateTask → Result (Unit {0}) × S → List Line × S
  after_complete ctx claim (ok _, s) = (task_done ∷ [], s)
  after_complete ctx claim (err e, s) = finalisation_failed ctx claim complete e s

  abbrev finish : Observed Decimal → UpdateTask → Result (Rate Decimal) → S → List Line × S
  finish o claim (err e) s = fail_claim o.after_finalise claim e s
  finish o claim (ok rate) s =
      after_complete o.after_finalise claim
        (repo.complete_task claim rate.value rate.date o.fetched_at s)

  abbrev after_fetch : Ctx → Observed Decimal → UpdateTask → S → List Line × S
  after_fetch stopped o claim s = release claim s
  after_fetch expired o claim s = (deadline_exceeded ∷ [], s)
  after_fetch live o claim s = finish o claim o.fetched s

  -- `Worker.process`.
  unfoldable pub process : Observed Decimal → UpdateTask → S → List Line × S
  process o claim s = after_fetch o.after_fetch o claim s

  -- What a poll of the queue reports to the loop: whether a task was claimed, and the error.
  pub record Poll : Type 0 where
    pub claimed : Bool
    pub error : Option Error
    pub lines : List Line
    pub store : S

  abbrev process_claim : Observed Decimal → Result (Option UpdateTask) × S → Poll
  process_claim o (err e, s) = record { claimed = false; error = some e; lines = []; store = s }
  process_claim o (ok none, s) = record { claimed = false; error = none; lines = []; store = s }
  process_claim o (ok (some claim), s) =
      let (ls, s') = process o claim s in
      record { claimed = true; error = none; lines = ls; store = s' }

  -- `Worker.claimAndProcess`.
  unfoldable pub claim_and_process : Observed Decimal → S → Poll
  claim_and_process o s = process_claim o (repo.claim_task s)
