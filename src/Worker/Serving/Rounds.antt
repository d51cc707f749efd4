-- ===== src/Worker/Serving/Rounds.antt =====
-- `Worker.Run` of internal/worker/worker.go with a provider that answers.
use mathlib.Core.Bool.{false≢true}
use currency_quotes_service.Prelude.{
  ℕ, suc, ◌≤◌, ◌<◌, ◌≡◌, sym, subst, ◌∙◌, inl, inr, Bool, true, ◌&&◌, List, [], ◌∷◌, some, length,
  any, In, In-any, All, All-In, Extends, Extends-refl, Extends-trans, Extends-In, count_if-zero,
  arith,
}
use currency_quotes_service.Domain.Errors.{ok}
use currency_quotes_service.Domain.Task.{is_pending, is_done}
use currency_quotes_service.Storage.Schema.{Row, Db, scan_task, max_smallint}
use currency_quotes_service.Storage.Statements.{has_id, of_update, update, oldest_pending, claimed}
use currency_quotes_service.Storage.World.{World, turn}
use currency_quotes_service.Storage.Repository.{Decimals, claim_task}
use currency_quotes_service.Storage.Invariant.{Inv}
use currency_quotes_service.Storage.Invariant.Claims.{oldest_pending-In}
use currency_quotes_service.Provider.{Rate}
use currency_quotes_service.Worker.{Observed, live, process, claim_and_process}
use currency_quotes_service.Worker.Guarantee.{storage}
use currency_quotes_service.Worker.Loop.{Round, Reports, round, run}
use currency_quotes_service.Worker.Draining.{is_waiting, waiting, Room, Quiet}
use currency_quotes_service.Worker.Draining.Rounds.{
  Fair, claim_task-Served, process_claim-Served, run_drains,
}
use currency_quotes_service.Worker.Serving.{Served, Served-refl, Served-trans}
use currency_quotes_service.Worker.Serving.Calls.{claim_task-Quiet, complete_task-Quiet}
use currency_quotes_service.Worker.Serving.Tables.{close-held, insert-taken}

-- The rows that a worker leaves, and that the tables are whole.
record Serves (d d' : Db) : Type 0 where
  served : Extends Served d.tasks d'.tasks
  inv : Inv d'

Serves-refl : (d : Db) → Inv d → Serves d d
Serves-refl d v = record { served = Extends-refl Served Served-refl d.tasks; inv = v }

Serves-trans : (d d' d'' : Db) → Serves d d' → Serves d' d'' → Serves d d''
Serves-trans d d' d'' h k = record {
  served = Extends-trans Served Served-trans d.tasks d'.tasks d''.tasks h.served k.served;
  inv = k.inv;
}

-- A task with this identifier is done.
abbrev pub is_finished : ℕ → Row → Bool
is_finished id r = has_id id r && is_done r.status

done_row :
    (d : Db) (r r' : Row)
    → Inv d
    → In r' d.tasks
    → r'.id ≡ r.id
    → is_done r'.status ≡ true
    → (any (is_finished r.id) d.tasks ≡ true) × (any (of_update r.id) d.quotes ≡ true)
done_row d r r' v m id finished = (
  In-any (is_finished r.id) r' d.tasks m (ground (arith, id, finished)),
  subst (λ n. any (of_update n) d.quotes ≡ true) id
      (sym (All-In (λ r. is_done r.status ≡ any (of_update r.id) d.quotes) d.tasks r' v.finished m)
        ∙ finished),
)

-- Where no task waits any more, each that was pending is done and has a quote.
Serves-done :
    (d d' : Db) (r : Row)
    → Serves d d'
    → waiting d' ≡ 0
    → In r d.tasks
    → is_pending r.status ≡ true
    → (any (is_finished r.id) d'.tasks ≡ true) × (any (of_update r.id) d'.quotes ≡ true)
Serves-done d d' r serves z m p =
    let (r', m', step) = Extends-In Served d.tasks d'.tasks r serves.served m in
    elim step [
      | inl same ↦ absurd (
          false≢true (
            sym (count_if-zero is_waiting d'.tasks z)
            ∙ In-any is_waiting r' d'.tasks m' (rw same p)))
      | inr (id, _, finished) ↦ done_row d' r r' serves.inv m' id finished
    ]

module _ (decimals : Decimals) where
  -- The provider answers a rate that the column of quotes takes, before the context is done.
  abbrev pub Answered : Observed decimals.Decimal → Type 0
  Answered o =
      (rate : Rate decimals.Decimal) × (o.fetched ≡ ok rate)
      × ((n : ℕ) × (decimals.to_numeric rate.value ≡ some n) × (0 < n))

module _ (decimals : Decimals) (attempts : ℕ) where
  process-Serves :
      (w : World) (o : Observed decimals.Decimal) (r : Row)
      → Quiet w.script
      → Inv w.db
      → oldest_pending (turn w).locked w.db.tasks ≡ some r
      → r.attempts < max_smallint
      → o.after_fetch ≡ live
      → Answered decimals o
      → let w' : World = record w {
        db = (update (has_id r.id) (claimed (turn w).now) w.db).1;
        at = suc w.at;
      } in
        Serves w.db
          (process (storage decimals) attempts o (scan_task (claimed (turn w).now r)) w').1.db
  unfolding process
  process-Serves w o r q v e small l (rate, fetched, (n, stored, p)) =
      let now = (turn w).now in
      let w' : World = record w {
        db = (update (has_id r.id) (claimed now) w.db).1;
        at = suc w.at;
      } in
      let t = scan_task (claimed now r) in
      let (d', taken, inv, rows) =
        insert-taken now (turn w').now (turn w).locked w.db r v e small n rate.date o.fetched_at
          p in
      rw (l, fetched)
        (rw
          (complete_task-Quiet decimals t rate.value rate.date o.fetched_at w' d' q
            (close-held now (turn w').now (turn w).locked w.db r v e small) (rw stored taken))
          (record { served = rows; inv = inv }))

  claim_and_process-Serves :
      (w : World) (o : Observed decimals.Decimal)
      → Quiet w.script
      → Inv w.db
      → Room w.db
      → o.after_fetch ≡ live
      → Answered decimals o
      → Serves w.db (claim_and_process (storage decimals) attempts o w).store.db
  unfolding claim_and_process
  claim_and_process-Serves w o q v room l a = elim (claim_task-Quiet w q room) [
    | inl e ↦ rw e (Serves-refl w.db v)
    | inr (r, found, e) ↦
        let (m, p, _) = oldest_pending-In (turn w).locked w.db.tasks r found in
        rw e (process-Serves w o r q v found (All-In _ w.db.tasks r room m p) l a)
  ]

  run-Serves :
      (interval : ℕ) (rounds : List (Round decimals.Decimal)) (reports : Reports) (w : World)
      → Quiet w.script
      → Inv w.db
      → Room w.db
      → All Fair rounds
      → All (λ r. Answered decimals r.observed) rounds
      → Serves w.db (run (storage decimals) attempts interval rounds reports w).1.db
  unfolding run round claim_and_process
  run-Serves interval [] reports w q v room fair answers = Serves-refl w.db v
  run-Serves interval (r ∷ rs) reports w q v room ((on, l, s), fair) (a, answers) =
      let (works, _) =
        process_claim-Served decimals attempts w r.observed (claim_task w) q l s
          (claim_task-Served w q room) in
      let first = claim_and_process-Serves w r.observed q v room l a in
      rw on (
        Serves-trans w.db _ _ first (
          run-Serves interval rs _ _ (subst Quiet (sym works.script) q) first.inv
            (works.drained.room room) fair answers))

  -- After as many rounds as there are pending tasks, every task that was pending is done and has a
  -- quote: where the provider answers each time with a rate that the column of the quotes takes, nobody
  -- else changes or locks the tables, every call of the database is answered, no pending task has been
  -- claimed as often as the column can count, and no round is cut short by the context.
  pub run_finishes :
      (interval : ℕ) (rounds : List (Round decimals.Decimal)) (reports : Reports) (w : World)
      → Quiet w.script
      → Inv w.db
      → Room w.db
      → All Fair rounds
      → All (λ r. Answered decimals r.observed) rounds
      → waiting w.db ≤ length rounds
      → (r : Row) → In r w.db.tasks
      → is_pending r.status ≡ true
      → let d = (run (storage decimals) attempts interval rounds reports w).1.db in
        (any (is_finished r.id) d.tasks ≡ true) × (any (of_update r.id) d.quotes ≡ true)
  run_finishes interval rounds reports w q v room fair answers h r m p =
      Serves-done w.db _ r (run-Serves interval rounds reports w q v room fair answers)
        (run_drains decimals attempts interval rounds reports w q room fair h) m p
