-- ===== src/Worker/Loop.antt =====
-- `Worker.Run` of internal/worker/worker.go: the polls of one worker until its context is done. The
-- pause between two polls, which a signal may cut short, leaves no trace but in the clock.
use currency_quotes_service.Prelude.{
  ℕ, suc, ◌+◌, Bool, ◌||◌, List, [], ◌∷◌, ◌++◌, Option, none, some, ◌==◌, leb, if◌then◌else◌,
}
use currency_quotes_service.Domain.Errors.{Error}
use currency_quotes_service.Worker.{
  Repository, Observed, Line, claim_error, claim_recovered, claim_and_process,
}

-- One round of the loop: whether the context is done at its head, what is observed in it, and the
-- clock after the poll.
pub record Round (Decimal : Type 0) : Type 0 where
  pub stopping : Bool
  pub observed : Observed Decimal
  pub clock : ℕ

-- The variables `failures` and `lastReport`.
pub record Reports : Type 0 where
  pub failures : ℕ
  pub last_report : ℕ

-- The `switch` on the outcome of a poll: the first failure is reported, then one for each interval,
-- then the recovery; the interval is `claimFailureReportInterval`.
abbrev recovered : Reports → List Line × Reports
recovered r =
    if r.failures == 0
    then ([], r)
    else (claim_recovered r.failures ∷ [], record r { failures = 0 })

unfoldable pub report : ℕ → ℕ → Option Error → Reports → List Line × Reports
report interval clock none r = recovered r
report interval clock (some e) r =
    let n = suc r.failures in
    if n == 1 || leb (r.last_report + interval) clock
    then (claim_error n ∷ [], record { failures = n; last_report = clock })
    else ([], record r { failures = n })

module _ {S Decimal : Type 0} (repo : Repository S Decimal) (provider_attempts interval : ℕ) where
  -- What one round adds to the log, and the state after it.
  unfoldable pub round : Round Decimal → Reports → S → List Line × Reports × S
  unfolding report claim_and_process
  round r reports s =
      let poll = claim_and_process repo provider_attempts r.observed s in
      let (ls, reports') = report interval r.clock poll.error reports in
      (poll.lines ++ ls, reports', poll.store)

  unfoldable pub run : List (Round Decimal) → Reports → S → List Line × S
  unfolding round
  run [] reports s = ([], s)
  run (r ∷ rs) reports s =
      let (ls, reports', s') = round r reports s in
      let rest = run rs reports' s' in if r.stopping then ([], s) else (ls ++ rest.0, rest.1)

-- The loop starts with no failure.
abbrev pub fresh_reports : Reports
fresh_reports = record { failures = 0; last_report = 0 }
