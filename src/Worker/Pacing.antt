-- ===== src/Worker/Pacing.antt =====
-- How often the loop of internal/worker/worker.go reports that it cannot claim.
use native.Mathlib.Nat.{add-mul}
use currency_quotes_service.Prelude.{
  Bool-cases, inl, inr, ℕ, ◌+◌, ◌*◌, ◌≤◌, ◌≡◌, Bool, true, false, List, [], ◌∷◌, ◌++◌, Option, none,
  some, ◌==◌, if◌then◌else◌, count_if, count_if-append, arith,
}
use currency_quotes_service.Domain.Errors.{Error}
use currency_quotes_service.Worker.{
  Repository, Observed, Line, claim_error, claim_recovered, claim_and_process, process, fail_claim,
  finalisation_failed, release,
}
use currency_quotes_service.Worker.Loop.{Round, Reports, report, round, run, fresh_reports}

abbrev pub is_claim_error : Line → Bool
is_claim_error (claim_error _) = true
is_claim_error _ = false

abbrev pub is_claim_recovered : Line → Bool
is_claim_recovered (claim_recovered _) = true
is_claim_recovered _ = false

-- The reports of failed claims, and those of their end.
abbrev pub errors : List Line → ℕ
errors ls = count_if is_claim_error ls

abbrev pub recoveries : List Line → ℕ
recoveries ls = count_if is_claim_recovered ls

-- The clock does not go back from one poll to the next.
abbrev pub Rising : {Decimal : Type 0} → ℕ → List (Round Decimal) → Type 0
Rising start [] = Unit
Rising start (r ∷ rs) = (start ≤ r.clock) × Rising r.clock rs

-- The clock after the last poll.
abbrev pub last_clock : {Decimal : Type 0} → ℕ → List (Round Decimal) → ℕ
last_clock start [] = start
last_clock start (r ∷ rs) = last_clock r.clock rs

Rising-le :
    {Decimal : Type 0} (start : ℕ) (rs : List (Round Decimal))
    → Rising start rs
    → start ≤ last_clock start rs
Rising-le start [] h = omega arith
Rising-le start (r ∷ rs) h = omega (arith, Rising-le r.clock rs h.1)

-- When the next failure is due to be reported.
abbrev due : ℕ → ℕ → Reports → ℕ
due interval now r = if r.failures == 0 then now else r.last_report + interval

report-due :
    (interval start clock : ℕ) (e : Option Error) (r : Reports)
    → start ≤ clock
    → r.last_report ≤ start
    → let (ls, r') = report interval clock e r in
      (errors ls * interval + due interval start r
        ≤ recoveries ls * interval + due interval clock r')
      × (r'.last_report ≤ clock)
unfolding report count_if
report-due interval start clock none r h k = ground arith
report-due interval start clock (some e) r h k = ground arith

-- Whether failures are open, of which the first has been reported.
abbrev open_failures : Reports → ℕ
open_failures r = if r.failures == 0 then 0 else 1

report-open :
    (interval clock : ℕ) (e : Option Error) (r : Reports)
    → let (ls, r') = report interval clock e r in
      recoveries ls + open_failures r' ≤ errors ls + open_failures r
unfolding report count_if
report-open interval clock none r = ground arith
report-open interval clock (some e) r = ground arith

module _ {S Decimal : Type 0} (repo : Repository S Decimal) (attempts : ℕ) where
  -- What the processing of a task adds to the log is none of these reports.
  polls_silent :
      (o : Observed Decimal) (s : S)
      → (errors (claim_and_process repo attempts o s).lines ≡ 0)
        × (recoveries (claim_and_process repo attempts o s).lines ≡ 0)
  unfolding claim_and_process process fail_claim finalisation_failed release count_if
  polls_silent o s = ground arith

  module _ (interval : ℕ) where
    -- What one poll reports, with what comes after it.
    paced_step :
        (o : Observed Decimal) (start clock end : ℕ) (r : Reports) (s : S) (ls rest : List Line)
        (r' : Reports)
        → (errors ls * interval + due interval start r
            ≤ recoveries ls * interval + due interval clock r')
        → (errors rest * interval + due interval clock r'
            ≤ recoveries rest * interval + interval + end)
        → let all = ((claim_and_process repo attempts o s).lines ++ ls) ++ rest in
          errors all * interval + due interval start r ≤ recoveries all * interval + interval + end
    paced_step o start clock end r s ls rest r' h k =
        let polled = (claim_and_process repo attempts o s).lines in
        let (none_failed, none_ended) = polls_silent o s in
        rw
          (
            count_if-append is_claim_error (polled ++ ls) rest,
            count_if-append is_claim_error polled ls,
            count_if-append is_claim_recovered (polled ++ ls) rest,
            count_if-append is_claim_recovered polled ls,
            none_failed,
            none_ended,
          )
          (omega (
            arith,
            h,
            k,
            add-mul (errors ls) (errors rest) interval,
            add-mul (recoveries ls) (recoveries rest) interval,
          ))

    run-due :
        (rs : List (Round Decimal)) (start : ℕ) (r : Reports) (s : S)
        → Rising start rs
        → r.last_report ≤ start
        → let ls = (run repo attempts interval rs r s).0 in
          errors ls * interval + due interval start r
          ≤ recoveries ls * interval + interval + last_clock start rs
    unfolding run round count_if
    run-due [] start r s h k = ground arith
    run-due (o ∷ rs) start r s h k = elim (Bool-cases o.stopping) [
      | inl stop ↦ rw stop (ground (arith, Rising-le o.clock rs h.1))
      | inr go ↦
          let poll = claim_and_process repo attempts o.observed s in
          let (first, below) = report-due interval start o.clock poll.error r h.0 k in
          rw go (
            paced_step o.observed start o.clock (last_clock o.clock rs) r s
              (report interval o.clock poll.error r).0 _ (report interval o.clock poll.error r).1
              first
              (run-due rs o.clock (report interval o.clock poll.error r).1 poll.store h.1 below))
    ]

    open_step :
        (o : Observed Decimal) (s : S) (ls rest : List Line) (before after : ℕ)
        → recoveries ls + after ≤ errors ls + before
        → recoveries rest ≤ errors rest + after
        → let all = ((claim_and_process repo attempts o s).lines ++ ls) ++ rest in
          recoveries all ≤ errors all + before
    open_step o s ls rest before after h k =
        let polled = (claim_and_process repo attempts o s).lines in
        let (none_failed, none_ended) = polls_silent o s in
        rw
          (
            count_if-append is_claim_error (polled ++ ls) rest,
            count_if-append is_claim_error polled ls,
            count_if-append is_claim_recovered (polled ++ ls) rest,
            count_if-append is_claim_recovered polled ls,
            none_failed,
            none_ended,
          )
          (omega (arith, h, k))

    run_open :
        (rs : List (Round Decimal)) (r : Reports) (s : S)
        → let ls = (run repo attempts interval rs r s).0 in
          recoveries ls ≤ errors ls + open_failures r
    unfolding run round count_if
    run_open [] r s = ground arith
    run_open (o ∷ rs) r s = elim (Bool-cases o.stopping) [
      | inl stop ↦ rw stop (ground arith)
      | inr go ↦
          let poll = claim_and_process repo attempts o.observed s in
          let r' = (report interval o.clock poll.error r).1 in
          rw go (
            open_step o.observed s (report interval o.clock poll.error r).0 _ (open_failures r)
              (open_failures r') (report-open interval o.clock poll.error r)
              (run_open rs r' poll.store))
    ]

    -- Over any polls under a clock that does not go back, the reports of failed claims are at most one
    -- for each interval that has passed, one for each reported recovery, and one more; and they are at
    -- least as many as the reported recoveries.
    pub run-paced :
        (rs : List (Round Decimal)) (start : ℕ) (s : S)
        → Rising start rs
        → let ls = (run repo attempts interval rs fresh_reports s).0 in
          (errors ls * interval + start ≤ (recoveries ls + 1) * interval + last_clock start rs)
          × (recoveries ls ≤ errors ls)
    run-paced rs start s h =
        let ls = (run repo attempts interval rs fresh_reports s).0 in
        (
          omega (
            arith,
            run-due rs start fresh_reports s h (omega arith),
            add-mul (recoveries ls) 1 interval,
          ),
          omega (arith, run_open rs fresh_reports s),
        )
