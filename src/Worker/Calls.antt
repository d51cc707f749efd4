-- ===== src/Worker/Calls.antt =====
-- Which calls of the repository the processing of one claim in internal/worker/worker.go makes, over
-- any repository.
use currency_quotes_service.Prelude.{
  ℕ, ◌≡◌, refl, ◌⊎◌, inl, inr, true, false, List, [], ◌∷◌, ◌++◌, Text, Bool-cases, arith,
}
use currency_quotes_service.Domain.Errors.{Error, Result, ok, err, is, transient}
use currency_quotes_service.Domain.Task.{UpdateTask}
use currency_quotes_service.Provider.{Rate}
use currency_quotes_service.Worker.{
  Repository, Observed, Ctx, live, stopped, expired, release, finalisation_failed, Op, complete,
  fail, fail_claim, after_fail, after_complete, finish, after_fetch, process,
}
use currency_quotes_service.Worker.Reasons.{failure_reason, unavailable, unusable_response}

-- A call with its arguments.
pub data Call (Decimal : Type 0) : Type 0 where
  claims : Call Decimal
  completes : UpdateTask → Decimal → ℕ → ℕ → Call Decimal
  fails : UpdateTask → Text → Call Decimal
  releases : UpdateTask → Call Decimal

reason_transient : (n : ℕ) (x : Error) → is transient x ≡ true → failure_reason n x ≡ unavailable n
unfolding failure_reason
reason_transient n x t = rw t refl

reason_other : (n : ℕ) (x : Error) → is transient x ≡ false → failure_reason n x ≡ unusable_response
unfolding failure_reason
reason_other n x t = rw t refl

module _ {S Decimal : Type 0} (repo : Repository S Decimal) where
  abbrev logged :
      {A : Type 0} → Call Decimal → List (Call Decimal) → A × S → A × (S × List (Call Decimal))
  logged c l (a, s) = (a, (s, l ++ c ∷ []))

  -- The same repository, with a record of the calls.
  abbrev pub traced : Repository (S × List (Call Decimal)) Decimal
  traced = record {
    claim_task = λ s. logged claims s.1 (repo.claim_task s.0);
    complete_task = λ t v d f s. logged (completes t v d f) s.1 (repo.complete_task t v d f s.0);
    fail_task = λ t r s. logged (fails t r) s.1 (repo.fail_task t r s.0);
    release_task = λ t s. logged (releases t) s.1 (repo.release_task t s.0);
  }

  -- A call that finalises the claim: with the rate that was fetched, or with one of two reasons.
  abbrev pub Finalises : ℕ → Observed Decimal → UpdateTask → Call Decimal → Type 0
  Finalises attempts o claim c =
      ((rate : Rate Decimal) × (o.fetched ≡ ok rate)
        × (c ≡ completes claim rate.value rate.date o.fetched_at))
      ⊎ ((e : Error) × (o.fetched ≡ err e)
          × (((is transient e ≡ true) × (c ≡ fails claim (unavailable attempts)))
              ⊎ ((is transient e ≡ false) × (c ≡ fails claim unusable_response))))

  -- The calls of one processing, by what the context says after the fetch.
  abbrev pub Proper : ℕ → Observed Decimal → UpdateTask → List (Call Decimal) → Type 0
  Proper attempts o claim calls =
      ((o.after_fetch ≡ expired) × (calls ≡ []))
      ⊎ ((o.after_fetch ≡ stopped) × (calls ≡ releases claim ∷ []))
      ⊎ ((o.after_fetch ≡ live)
          × ((c : Call Decimal) × Finalises attempts o claim c
              × ((calls ≡ c ∷ []) ⊎ (calls ≡ c ∷ releases claim ∷ []))))

  -- What is called after a finalisation: nothing, or a release.
  abbrev AtMostReleased : UpdateTask → List (Call Decimal) → List (Call Decimal) → Type 0
  AtMostReleased claim l l' = (l' ≡ l) ⊎ (l' ≡ l ++ releases claim ∷ [])

  finalisation_failed_calls :
      (attempts : ℕ) (ctx : Ctx) (claim : UpdateTask) (op : Op) (e : Error)
      (s : S × List (Call Decimal))
      → AtMostReleased claim s.1 (finalisation_failed traced attempts ctx claim op e s).1.1
  unfolding finalisation_failed release
  finalisation_failed_calls attempts ctx claim op e s = ground arith

  after_fail_calls :
      (attempts : ℕ) (ctx : Ctx) (claim : UpdateTask)
      (r : Result (Unit {0}) × (S × List (Call Decimal)))
      → AtMostReleased claim r.1.1 (after_fail traced attempts ctx claim r).1.1
  after_fail_calls attempts ctx claim (ok _, s) = inl refl
  after_fail_calls attempts ctx claim (err e, s) =
      finalisation_failed_calls attempts ctx claim fail e s

  after_complete_calls :
      (attempts : ℕ) (ctx : Ctx) (claim : UpdateTask)
      (r : Result (Unit {0}) × (S × List (Call Decimal)))
      → AtMostReleased claim r.1.1 (after_complete traced attempts ctx claim r).1.1
  after_complete_calls attempts ctx claim (ok _, s) = inl refl
  after_complete_calls attempts ctx claim (err e, s) =
      finalisation_failed_calls attempts ctx claim complete e s

  abbrev Finished : ℕ → Observed Decimal → UpdateTask → List (Call Decimal) → Type 0
  Finished attempts o claim calls =
      (c : Call Decimal) × Finalises attempts o claim c
      × ((calls ≡ c ∷ []) ⊎ (calls ≡ c ∷ releases claim ∷ []))

  finish_calls :
      (attempts : ℕ) (o : Observed Decimal) (claim : UpdateTask) (s : S) (r : Result (Rate Decimal))
      → o.fetched ≡ r
      → Finished attempts o claim (finish traced attempts o claim r (s, [])).1.1
  unfolding fail_claim
  finish_calls attempts o claim s (ok rate) e = (
    completes claim rate.value rate.date o.fetched_at,
    inl (rate, e, refl),
    after_complete_calls attempts o.after_finalise claim
        (traced.complete_task claim rate.value rate.date o.fetched_at (s, [])),
  )
  finish_calls attempts o claim s (err x) e = failed (Bool-cases (is transient x))
    where
      reported :
          (reason : Text)
          → failure_reason attempts x ≡ reason
          → AtMostReleased claim
              (fails claim reason ∷ [])
              (finish traced attempts o claim (err x) (s, [])).1.1
      reported reason h = rw (← h) (
          after_fail_calls attempts o.after_finalise claim
            (traced.fail_task claim (failure_reason attempts x) (s, [])))

      failed :
          (is transient x ≡ true) ⊎ (is transient x ≡ false)
          → Finished attempts o claim (finish traced attempts o claim (err x) (s, [])).1.1
      failed (inl t) = (
        fails claim (unavailable attempts),
        inr (x, e, inl (t, refl)),
        reported (unavailable attempts) (reason_transient attempts x t),
      )
      failed (inr t) = (
        fails claim unusable_response,
        inr (x, e, inr (t, refl)),
        reported unusable_response (reason_other attempts x t),
      )

  -- Processing a claim calls the repository for that claim alone: not at all once its deadline has
  -- passed, with a release when the service is stopping, and otherwise with one finalisation, which a
  -- release may follow; a failure is stored with one of the two fixed reasons, by whether the error
  -- of the provider was transient.
  pub process_calls :
      (attempts : ℕ) (o : Observed Decimal) (claim : UpdateTask) (s : S)
      → Proper attempts o claim (process traced attempts o claim (s, [])).1.1
  unfolding process release
  process_calls attempts o claim s = fetched o.after_fetch refl
    where
      fetched :
          (c : Ctx)
          → o.after_fetch ≡ c
          → Proper attempts o claim (after_fetch traced attempts c o claim (s, [])).1.1
      fetched expired e = inl (e, refl)
      fetched stopped e = inr (inl (e, refl))
      fetched live e = inr (inr (e, finish_calls attempts o claim s o.fetched refl))
