-- ===== src/Worker/Recovery.antt =====
-- internal/worker/recovery.go: the passes that return tasks which nobody holds any more.
use currency_quotes_service.Prelude.{ℕ, Bool, List, [], ◌∷◌, ◌++◌, Text, ltb, if◌then◌else◌}
use currency_quotes_service.Domain.Errors.{Result, ok, err}
use currency_quotes_service.Worker.Reasons.{abandoned_reason}

pub record RecoverySettings : Type 0 where
  pub stuck_timeout : ℕ
  pub max_attempts : ℕ

-- The lines of the log.
pub data Line : Type 0 where
  release_error : Line
  stuck_released : ℕ → Line
  stuck_abandoned : ℕ → Text → Line

module _ {S : Type 0} (release_stuck_tasks : ℕ → ℕ → Text → S → Result (ℕ × ℕ) × S)
    (settings : RecoverySettings) where
  abbrev outcome : Bool → Text → Result (ℕ × ℕ) → List Line
  outcome stopping reason (err e) = if stopping then [] else release_error ∷ []
  outcome stopping reason (ok (released, abandoned)) =
      (if ltb 0 released then stuck_released released ∷ [] else [])
      ++ (if ltb 0 abandoned then stuck_abandoned abandoned reason ∷ [] else [])

  -- `Recovery.pass`; `stopping` says whether the context is done when it is asked.
  unfoldable pub pass : Bool → S → List Line × S
  pass stopping s =
      let reason = abandoned_reason settings.max_attempts in
      let (r, s') = release_stuck_tasks settings.stuck_timeout settings.max_attempts reason s in
      (outcome stopping reason r, s')

  -- `Recovery.Run`: one pass for each tick of the ticker, until the context is done.
  unfoldable pub run : List Bool → S → List Line × S
  unfolding pass
  run [] s = ([], s)
  run (stopping ∷ ticks) s =
      let (ls, s') = pass stopping s in let rest = run ticks s' in (ls ++ rest.0, rest.1)
