-- ===== src/Worker/Discipline.antt =====
-- What a worker of internal/worker does to the state of its repository, from what the methods of the
-- repository do: any relation that the methods keep is kept by `Worker.Run`.
use currency_quotes_service.Prelude.{
  ℕ, ◌≡◌, refl, List, [], ◌∷◌, Option, none, some, Text, Bool-cases, inl, inr,
}
use currency_quotes_service.Domain.Errors.{Error, Result, ok, err, is, stale_claim}
use currency_quotes_service.Domain.Task.{UpdateTask}
use currency_quotes_service.Provider.{Rate}
use currency_quotes_service.Worker.{
  Repository, Observed, Ctx, live, stopped, expired, is_stopped, Op, complete, fail, release,
  finalisation_failed, after_fail, fail_claim, after_complete, finish, after_fetch, process,
  process_claim, claim_and_process,
}
use currency_quotes_service.Worker.Reasons.{failure_reason}
use currency_quotes_service.Worker.Loop.{Round, Reports, round, run}

-- A relation between the states before and after, `Rel`, that may be used from states with `Pre`, and
-- what a worker knows of the task that it has claimed, `Own`.
pub record Discipline (S Decimal : Type 0) (repo : Repository S Decimal) : Type 1 where
  pub Pre : S → Type 0
  pub Rel : S → S → Type 0
  pub Own : UpdateTask → S → Type 0
  pub stays : (s : S) → Pre s → Rel s s
  pub follows : (s s' s'' : S) → Rel s s' → Rel s' s'' → Rel s s''
  pub remains : (s s' : S) → Pre s → Rel s s' → Pre s'
  pub claims : (s : S) → Pre s → Rel s (repo.claim_task s).1
  pub owns : (s s' : S) (t : UpdateTask) → Pre s → repo.claim_task s ≡ (ok (some t), s') → Own t s'
  pub completes :
      (s : S) (t : UpdateTask) (rate : Decimal) (rate_date fetched_at : ℕ)
      → Pre s
      → Own t s
      → Rel s (repo.complete_task t rate rate_date fetched_at s).1
  pub fails : (s : S) (t : UpdateTask) (reason : Text) → Pre s → Rel s (repo.fail_task t reason s).1
  pub releases : (s : S) (t : UpdateTask) → Pre s → Rel s (repo.release_task t s).1

module _ {S Decimal : Type 0} (repo : Repository S Decimal) (laws : Discipline S Decimal repo)
    (attempts : ℕ) where
  open laws use {Pre, Rel, Own, stays, follows, remains, claims, owns, completes, fails, releases}

  release-Rel : (t : UpdateTask) (s : S) → Pre s → Rel s (release repo attempts t s).1
  unfolding release
  release-Rel t s h = releases s t h

  finalisation_failed-Rel :
      (t : UpdateTask) (s : S) (ctx : Ctx) (op : Op) (e : Error)
      → Pre s
      → Rel s (finalisation_failed repo attempts ctx t op e s).1
  unfolding finalisation_failed
  finalisation_failed-Rel t s ctx op e h = elim (Bool-cases (is stale_claim e)) [
    | inl lost ↦ rw lost (stays s h)
    | inr kept ↦ elim (Bool-cases (is_stopped ctx)) [
      | inl leaving ↦ rw kept (rw leaving (release-Rel t s h))
      | inr staying ↦ rw kept (rw staying (stays s h))
    ]
  ]

  after_fail-Rel :
      (t : UpdateTask) (s : S) (ctx : Ctx) (r : Result (Unit {0}) × S)
      → Pre s
      → Rel s r.1
      → Rel s (after_fail repo attempts ctx t r).1
  after_fail-Rel t s ctx (ok _, s') h g = g
  after_fail-Rel t s ctx (err e, s') h g =
      follows s s' _ g (finalisation_failed-Rel t s' ctx fail e (remains s s' h g))

  after_complete-Rel :
      (t : UpdateTask) (s : S) (ctx : Ctx) (r : Result (Unit {0}) × S)
      → Pre s
      → Rel s r.1
      → Rel s (after_complete repo attempts ctx t r).1
  after_complete-Rel t s ctx (ok _, s') h g = g
  after_complete-Rel t s ctx (err e, s') h g =
      follows s s' _ g (finalisation_failed-Rel t s' ctx complete e (remains s s' h g))

  finish-Rel :
      (t : UpdateTask) (s : S) (o : Observed Decimal) (r : Result (Rate Decimal))
      → Pre s
      → Own t s
      → Rel s (finish repo attempts o t r s).1
  unfolding fail_claim
  finish-Rel t s o (ok rate) h k =
      after_complete-Rel t s o.after_finalise
        (repo.complete_task t rate.value rate.date o.fetched_at s) h
        (completes s t rate.value rate.date o.fetched_at h k)
  finish-Rel t s o (err e) h k =
      after_fail-Rel t s o.after_finalise (repo.fail_task t (failure_reason attempts e) s) h
        (fails s t (failure_reason attempts e) h)

  -- Processing a claim that is owned keeps the relation.
  pub process-Rel :
      (t : UpdateTask) (s : S) (o : Observed Decimal)
      → Pre s
      → Own t s
      → Rel s (process repo attempts o t s).1
  unfolding process
  process-Rel t s o h k = fetched o.after_fetch
    where
      fetched : (c : Ctx) → Rel s (after_fetch repo attempts c o t s).1
      fetched live = finish-Rel t s o o.fetched h k
      fetched stopped = release-Rel t s h
      fetched expired = stays s h

  process_claim-Rel :
      (s : S) (o : Observed Decimal) (r : Result (Option UpdateTask) × S)
      → repo.claim_task s ≡ r
      → Pre s
      → Rel s r.1
      → Rel s (process_claim repo attempts o r).store
  process_claim-Rel s o (err e, s') c h g = g
  process_claim-Rel s o (ok none, s') c h g = g
  process_claim-Rel s o (ok (some t), s') c h g =
      follows s s' _ g (process-Rel t s' o (remains s s' h g) (owns s s' t h c))

  claim_and_process-Rel :
      (s : S) (o : Observed Decimal) → Pre s → Rel s (claim_and_process repo attempts o s).store
  unfolding claim_and_process
  claim_and_process-Rel s o h = process_claim-Rel s o (repo.claim_task s) refl h (claims s h)

  -- A worker that polls for any number of rounds keeps the relation.
  pub run-Rel :
      (interval : ℕ) (rounds : List (Round Decimal)) (reports : Reports) (s : S)
      → Pre s
      → Rel s (run repo attempts interval rounds reports s).1
  unfolding run round
  run-Rel interval [] reports s h = stays s h
  run-Rel interval (r ∷ rs) reports s h = elim (Bool-cases r.stopping) [
    | inl stop ↦ rw stop (stays s h)
    | inr on ↦
        let g = claim_and_process-Rel s r.observed h in
        rw on (follows s _ _ g (run-Rel interval rs _ _ (remains s _ h g)))
  ]
