-- ===== src/System/Methods.antt =====
-- The methods of internal/storage/postgres/repository.go among other processes: each publishes steps of
-- the service, on every path.
use currency_quotes_service.Prelude.{
  ℕ, ◌≡◌, refl, inl, inr, Bool, [], ◌∷◌, Option, none, some, Text, Option-cases, arith,
}
use currency_quotes_service.Domain.Errors.{Result, ok, err}
use currency_quotes_service.Domain.Task.{UpdateTask}
use currency_quotes_service.Storage.Schema.{Db}
use currency_quotes_service.Storage.Statements.{claim_oldest, oldest_pending}
use currency_quotes_service.Storage.World.{World, turn, wrap, give, execute}
use currency_quotes_service.Storage.Repository.{
  Decimals, claim_call, fail_call, release_call, unless_stale, claim_task, fail_task, release_task,
  complete_task, release_stuck_tasks,
}
use currency_quotes_service.Storage.Invariant.{Inv, Known}
use currency_quotes_service.Storage.Progress.{Known-Progress}
use currency_quotes_service.Storage.Finalising.{complete_task-atomic}
use currency_quotes_service.Storage.Recovering.{release_stuck_tasks-partition}
use currency_quotes_service.Storage.Guarantee.Completion.{complete_task-Safe}
use currency_quotes_service.Storage.Guarantee.Methods.{release_stuck_tasks-Safe}
use currency_quotes_service.System.{
  takes, completes, fails, releases, recovers, Reach, Reach-trans, Reach-Step, Reach-eq,
}
use currency_quotes_service.System.Steps.{Reach-Evolves}
use currency_quotes_service.System.Acts.{
  Among, Among-Rely, Acts, Acts-refl, Does, Publishes, bind-Does, call-Does,
}

abbrev pub Anything : {A B : Type 0} → A → B → Type 0
Anything a b = Unit

pub give-Does : {A : Type 0} (w : World) (r : Result A) → Does w (give r w) Anything
give-Does w (ok a) = (Acts-refl w, tt)
give-Does w (err e) = (Acts-refl w, tt)

pub publishes :
    {A : Type 0} (r : Option (A × Db)) (d : Db)
    → ((a : A) (d' : Db) → r ≡ some (a, d') → Reach d d')
    → Publishes r d Anything
publishes none d k = tt
publishes (some (a, d')) d k = (k a d' refl, tt)

claims-Reach :
    (now : ℕ) (locked : ℕ → Bool) (d d' : Db) (o : Option UpdateTask)
    → claim_oldest now locked d ≡ some (o, d')
    → Reach d d'
unfolding claim_oldest
claims-Reach now locked d d' (some t) e = Reach-Step (takes now locked t e)
claims-Reach now locked d d' none e = elim (Option-cases (oldest_pending locked d.tasks)) [
  | inl nothing ↦ Reach-eq (ground (arith, nothing))
  | inr (r, found) ↦ ground (arith, found)
]

module _ (w : World) (among : Among w.script) where
  pub claim_task-Acts : Acts w (claim_task w).1
  unfolding claim_task
  claim_task-Acts =
      (call-Does w among claim_call Anything
        (λ d h. publishes _ d (λ o d' e. claims-Reach (turn w).now (turn w).locked d d' o e))).0

  pub release_task-Acts : (claim : UpdateTask) → Acts w (release_task claim w).1
  unfolding release_task
  release_task-Acts claim =
      (bind-Does w among (wrap (execute (release_call claim))) (λ n. give (unless_stale n)) Anything
        Anything
        (call-Does w among (release_call claim) Anything
          (λ d h. (Reach-Step (releases (turn w).now claim.id claim.attempts refl), tt)))
        (λ n w' a m q. give-Does w' (unless_stale n))).0

  pub fail_task-Acts : (claim : UpdateTask) (reason : Text) → Acts w (fail_task claim reason w).1
  unfolding fail_task
  fail_task-Acts claim [] = Acts-refl w
  fail_task-Acts claim (c ∷ reason) =
      (bind-Does w among (wrap (execute (fail_call claim (c ∷ reason))))
        (λ n. give (unless_stale n)) Anything Anything
        (call-Does w among (fail_call claim (c ∷ reason)) Anything
          (λ d h. (Reach-Step (fails (turn w).now claim.id claim.attempts c reason refl), tt)))
        (λ n w' a m q. give-Does w' (unless_stale n))).0

  pub complete_task-Acts :
      (decimals : Decimals) (claim : UpdateTask) (rate : decimals.Decimal)
      (rate_date fetched_at : ℕ)
      → Inv w.db
      → Known claim.id claim.pair w.db
      → Acts w (complete_task decimals claim rate rate_date fetched_at w).1
  complete_task-Acts decimals claim rate rate_date fetched_at v k =
      let rely = Among-Rely w.script among in
      let good = (complete_task-Safe decimals claim rate rate_date fetched_at w rely v k).0 in
      let met = among w.at w.db in
      let known = Known-Progress claim.id claim.pair w.db _ (Reach-Evolves met v).progress k in
      record {
        steps = elim (complete_task-atomic decimals claim rate rate_date fetched_at w) [
          | inl h ↦ Reach-trans met (Reach-eq h.0)
          | inr h ↦ Reach-trans met (
              Reach-Step (
                completes (turn w).now claim.id claim.attempts claim.pair (decimals.to_numeric rate)
                  rate_date fetched_at known h.0 h.1))
        ];
        script = good.script;
      }

  pub release_stuck_tasks-Acts :
      (older_than max_attempts : ℕ) (reason : Text)
      → Inv w.db
      → Acts w (release_stuck_tasks older_than max_attempts reason w).1
  unfolding release_stuck_tasks
  release_stuck_tasks-Acts older_than max_attempts [] v = Acts-refl w
  release_stuck_tasks-Acts older_than max_attempts (c ∷ reason) v =
      let rely = Among-Rely w.script among in
      let good = (release_stuck_tasks-Safe w older_than max_attempts (c ∷ reason) rely v).0 in
      let met = among w.at w.db in
      record {
        steps = elim (release_stuck_tasks-partition older_than max_attempts c reason w) [
          | inl h ↦ Reach-trans met (Reach-eq h.0)
          | inr h ↦
              Reach-trans met
                (Reach-Step (recovers (turn w).now older_than max_attempts c reason h.0))
        ];
        script = good.script;
      }
