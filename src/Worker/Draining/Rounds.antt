-- ===== src/Worker/Draining/Rounds.antt =====
-- What a worker of internal/worker/worker.go gets done: it drains the queue when nothing stands in its
-- way.
use currency_quotes_service.Prelude.{
  ℕ, ◌-◌, ◌≤◌, ◌<◌, ◌≡◌, refl, sym, subst, ◌⊎◌, inl, inr, Bool, true, false, List, [], ◌∷◌, Option,
  none, some, length, count_if, All, All-In, Option-cases, arith,
}
use currency_quotes_service.Domain.Errors.{Error, Result, ok, err}
use currency_quotes_service.Domain.Task.{UpdateTask, is_pending}
use currency_quotes_service.Storage.Schema.{Row, Db, max_smallint, scan_task}
use currency_quotes_service.Storage.Statements.{
  has_id, update, oldest_pending, claimed, claim_oldest,
}
use currency_quotes_service.Storage.World.{World, turn, execute}
use currency_quotes_service.Storage.Repository.{Decimals, claim_task, complete_task, fail_task}
use currency_quotes_service.Storage.Invariant.Claims.{oldest_pending-In}
use currency_quotes_service.Provider.{Rate}
use currency_quotes_service.Worker.{
  Observed, Ctx, live, is_stopped, Op, complete, fail, finalisation_failed, after_fail, fail_claim,
  after_complete, finish, process, process_claim, claim_and_process,
}
use currency_quotes_service.Worker.Reasons.{failure_reason}
use currency_quotes_service.Worker.Guarantee.{storage}
use currency_quotes_service.Worker.Loop.{Round, Reports, round, run}
use currency_quotes_service.Worker.Draining.{
  is_waiting, waiting, Room, Quiet, Drains, Drains-refl, update-Drains, update-fewer,
}
use currency_quotes_service.Worker.Draining.Methods.{
  Works, Works-trans, complete_task-Works, fail_task-Works,
}

none_waiting :
    (rs : List Row) (locked : ℕ → Bool)
    → ((id : ℕ) → locked id ≡ false)
    → oldest_pending locked rs ≡ none
    → count_if is_waiting rs ≡ 0
unfolding oldest_pending count_if
none_waiting [] locked h e = refl
none_waiting (r ∷ rs) locked h e = ground (arith, h r.id, none_waiting rs locked h)

-- A claim in a quiet world takes a task while there is one.
claim_oldest-fewer :
    (now : ℕ) (locked : ℕ → Bool) (d : Db)
    → ((id : ℕ) → locked id ≡ false)
    → Room d
    → ((claim_oldest now locked d ≡ some (none, d)) × (waiting d ≡ 0))
      ⊎ ((t : UpdateTask) × (d' : Db) × ((claim_oldest now locked d ≡ some (some t, d'))
            × (waiting d' < waiting d)
            × Drains d d'))
unfolding claim_oldest
claim_oldest-fewer now locked d h room = elim (Option-cases (oldest_pending locked d.tasks)) [
  | inl nothing ↦ inl (rw (nothing, claim_oldest) refl, none_waiting d.tasks locked h nothing)
  | inr (r, found) ↦
      let (m, p, _) = oldest_pending-In locked d.tasks r found in
      let small =
        All-In (λ r. is_pending r.status ≡ true → r.attempts < max_smallint) d.tasks r room m p in
      inr (
        scan_task (claimed now r),
        (update (has_id r.id) (claimed now) d).1,
        (
          rw (found, claim_oldest) (ground (arith, small)),
          update-fewer (has_id r.id) (claimed now) (λ r. refl) d r m p (ground arith),
          update-Drains (has_id r.id) (claimed now) (λ r. refl) d,
        ),
      )
]

-- One task fewer waits, if any did.
abbrev Served : World → World → Type 0
Served w w' = Works w w' × (waiting w'.db ≤ waiting w.db - 1)

-- The context is not done at the head of the round nor while its task is worked on.
abbrev pub Fair : {Decimal : Type 0} → Round Decimal → Type 0
Fair r =
    (r.stopping ≡ false)
    × (r.observed.after_fetch ≡ live)
    × (is_stopped r.observed.after_finalise ≡ false)

-- What a claim is answered with in a quiet world.
abbrev pub ServedClaim : World → Result (Option UpdateTask) × World → Type 0
ServedClaim w (err e, w') = ⊥
ServedClaim w (ok none, w') = Served w w'
ServedClaim w (ok (some t), w') = Works w w' × (waiting w'.db < waiting w.db)

pub claim_task-Served : (w : World) → Quiet w.script → Room w.db → ServedClaim w (claim_task w)
unfolding claim_task execute
claim_task-Served w q room =
    elim (claim_oldest-fewer (turn w).now (turn w).locked w.db (q.unlocked w.at) room) [
      | inl (e, nobody) ↦ rw (q.heard w.at) (
          rw (q.alone w.at w.db)
            (rw e (record { drained = Drains-refl w.db; script = refl }, omega arith)))
      | inr (t, d', (e, fewer, drains)) ↦
          rw (q.heard w.at)
            (rw (q.alone w.at w.db) (rw e (record { drained = drains; script = refl }, fewer)))
    ]

module _ (decimals : Decimals) (attempts : ℕ) where
  kept-Works :
      (w : World) (ctx : Ctx) (claim : UpdateTask) (op : Op) (e : Error)
      → is_stopped ctx ≡ false
      → (finalisation_failed (storage decimals) attempts ctx claim op e w).1 ≡ w
  unfolding finalisation_failed
  kept-Works w ctx claim op e h = ground arith

  after_complete-Works :
      (w : World) (ctx : Ctx) (claim : UpdateTask) (r : Result (Unit {0}) × World)
      → is_stopped ctx ≡ false
      → Works w r.1
      → Works w (after_complete (storage decimals) attempts ctx claim r).1
  after_complete-Works w ctx claim (ok _, w') h k = k
  after_complete-Works w ctx claim (err e, w') h k = rw (kept-Works w' ctx claim complete e h) k

  after_fail-Works :
      (w : World) (ctx : Ctx) (claim : UpdateTask) (r : Result (Unit {0}) × World)
      → is_stopped ctx ≡ false
      → Works w r.1
      → Works w (after_fail (storage decimals) attempts ctx claim r).1
  after_fail-Works w ctx claim (ok _, w') h k = k
  after_fail-Works w ctx claim (err e, w') h k = rw (kept-Works w' ctx claim fail e h) k

  finish-Works :
      (w : World) (o : Observed decimals.Decimal) (claim : UpdateTask)
      (r : Result (Rate decimals.Decimal))
      → Quiet w.script
      → is_stopped o.after_finalise ≡ false
      → Works w (finish (storage decimals) attempts o claim r w).1
  unfolding fail_claim
  finish-Works w o claim (ok rate) q h =
      after_complete-Works w o.after_finalise claim
        (complete_task decimals claim rate.value rate.date o.fetched_at w) h
        (complete_task-Works decimals claim w q rate.value rate.date o.fetched_at)
  finish-Works w o claim (err e) q h =
      after_fail-Works w o.after_finalise claim (fail_task claim (failure_reason attempts e) w) h
        (fail_task-Works decimals claim w q (failure_reason attempts e))

  process-Works :
      (w : World) (o : Observed decimals.Decimal) (claim : UpdateTask)
      → Quiet w.script
      → o.after_fetch ≡ live
      → is_stopped o.after_finalise ≡ false
      → Works w (process (storage decimals) attempts o claim w).1
  unfolding process
  process-Works w o claim q l h = rw l (finish-Works w o claim o.fetched q h)

  pub process_claim-Served :
      (w : World) (o : Observed decimals.Decimal) (r : Result (Option UpdateTask) × World)
      → Quiet w.script
      → o.after_fetch ≡ live
      → is_stopped o.after_finalise ≡ false
      → ServedClaim w r
      → Served w (process_claim (storage decimals) attempts o r).store
  process_claim-Served w o (err e, w') q l h s = absurd s
  process_claim-Served w o (ok none, w') q l h s = s
  process_claim-Served w o (ok (some t), w') q l h (works, fewer) =
      let next = process-Works w' o t (subst Quiet (sym works.script) q) l h in
      (Works-trans w w' _ works next, omega (arith, fewer, next.drained.fewer))

  -- After as many rounds as there are pending tasks, no task is pending: whatever the provider answers
  -- and the clock says, where nobody else changes or locks the tables, every call of the database is
  -- answered, no pending task has been claimed as often as the column can count, and no round is cut
  -- short by the context.
  pub run_drains :
      (interval : ℕ) (rounds : List (Round decimals.Decimal)) (reports : Reports) (w : World)
      → Quiet w.script
      → Room w.db
      → All Fair rounds
      → waiting w.db ≤ length rounds
      → waiting (run (storage decimals) attempts interval rounds reports w).1.db ≡ 0
  unfolding run round claim_and_process
  run_drains interval [] reports w q room fair h = omega arith
  run_drains interval (r ∷ rs) reports w q room ((on, l, s), fair) h =
      let (works, fewer) =
        process_claim-Served w r.observed (claim_task w) q l s (claim_task-Served w q room) in
      rw on (
        run_drains interval rs _ _ (subst Quiet (sym works.script) q) (works.drained.room room) fair
          (omega (arith, fewer, h)))
