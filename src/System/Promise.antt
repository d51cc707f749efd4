-- ===== src/System/Promise.antt =====
-- From a task that waits to the answer of its client: the worker of internal/worker, the tables of
-- internal/storage/postgres and GET /quotes/updates/{id} of internal/api together.
pub mod Posts
pub mod Recovered
use mathlib.Core.Bool.{false≢true}
use currency_quotes_service.Prelude.{
  ℕ, ◌≤◌, ◌<◌, ◌≡◌, refl, sym, ap, subst, ◌∙◌, inl, inr, Bool, true, List, some, Text, length, any,
  In, In-any, any-In, any-Extends, text_eq_iff, find?, find?-some, find?-none, find?-In, All,
  All-In, Option-cases, arith,
}
use currency_quotes_service.Domain.Errors.{ok}
use currency_quotes_service.Domain.Task.{UpdateTask, TaskDetails, is_pending, is_done, done}
use currency_quotes_service.Storage.Schema.{Row, QuoteRow, Db, scan_task}
use currency_quotes_service.Storage.Statements.{has_id, of_update, select_task}
use currency_quotes_service.Storage.World.{World, Turn, answered, turn, execute}
use currency_quotes_service.Storage.Repository as Postgres
use currency_quotes_service.Storage.Repository.{Decimals, read_details, read_quote}
use currency_quotes_service.Storage.Invariant.{Inv, Known, is_task}
use currency_quotes_service.Storage.Invariant.Claims.{only_row}
use currency_quotes_service.Storage.Progress.{Known-Progress}
use currency_quotes_service.Storage.Guarantee.{Rely, Evolves, Evolves-refl}
use currency_quotes_service.Service.{State}
use currency_quotes_service.Service
use currency_quotes_service.Api.{
  writes, TaskResponse, task, answer, Wire, new_task_response, format_rate,
}
use currency_quotes_service.Api.Handlers.{found_task, get_quote_update}
use currency_quotes_service.Api.Contract.{served}
use currency_quotes_service.Worker.Guarantee.{storage, run-Good}
use currency_quotes_service.Worker.Loop.{Round, Reports, run}
use currency_quotes_service.Worker.Draining.{waiting, Room, Quiet}
use currency_quotes_service.Worker.Draining.Rounds.{Fair}
use currency_quotes_service.Worker.Serving.Rounds.{Answered, run_finishes}
use currency_quotes_service.System.{Reach}
use currency_quotes_service.System.Steps.{Reach-Evolves}

-- A read of a task that has a quote.
module _ (id : ℕ) (pair : Text) (d : Db) (v : Inv d) (known : Known id pair d)
    (quoted : any (of_update id) d.quotes ≡ true) where
  row-found :
      (r : Row) × (find? (has_id id) d.tasks ≡ some r)
      × (r.id ≡ id)
      × (r.pair ≡ pair)
      × (is_done r.status ≡ true)
  row-found = elim (Option-cases (find? (has_id id) d.tasks)) [
    | inl missing ↦
        let (s, m', known') = any-In (is_task id pair) d.tasks known in
        absurd (
          false≢true (
            sym (find?-none (has_id id) d.tasks missing)
            ∙ In-any (has_id id) s d.tasks m' (ground arith)))
    | inr (r, found) ↦
        let m = find?-In (has_id id) d.tasks r found in
        let own : r.id ≡ id = ground (arith, find?-some (has_id id) d.tasks r found) in
        let (s, m', known') = any-In (is_task id pair) d.tasks known in
        let same : s ≡ r =
          All-In (λ s. has_id r.id s ≡ true → s ≡ r) d.tasks s (only_row r d.tasks v.ids m) m'
            (ground (arith, own, known')) in
        (
          r,
          found,
          own,
          subst (λ (x : Row). x.pair ≡ pair) same (ground (arith, known', text_eq_iff s.pair pair)),
          All-In (λ r. is_done r.status ≡ any (of_update r.id) d.quotes) d.tasks r v.finished m
              ∙ subst (λ n. any (of_update n) d.quotes ≡ true) (sym own) quoted,
        )
  ]

  quote-found : (q : QuoteRow) × (find? (of_update id) d.quotes ≡ some q) × (0 < q.rate)
  quote-found = elim (Option-cases (find? (of_update id) d.quotes)) [
    | inl missing ↦ absurd (false≢true (sym (find?-none (of_update id) d.quotes missing) ∙ quoted))
    | inr (q, found) ↦ (
      q,
      found,
      All-In (λ q. 0 < q.rate) d.quotes q v.rates (find?-In (of_update id) d.quotes q found),
    )
  ]

  selected :
      (t : UpdateTask) × (q : QuoteRow) × ((select_task id d ≡ some (t, some q))
        × (t.id ≡ id)
        × (t.pair ≡ pair)
        × (t.status ≡ done)
        × (0 < q.rate))
  unfolding select_task
  selected =
      let (r, found, own, same, finished) = row-found in
      let (q, joined, positive) = quote-found in
      (
        scan_task r,
        q,
        (
          rw (found, select_task) (ap (λ o. some (scan_task r, o)) joined),
          own,
          same,
          ground arith,
          positive,
        ),
      )

-- A world that is left alone.
Quiet-Rely : (script : ℕ → Turn) → Quiet script → Rely script
Quiet-Rely script q n d v = subst (λ x. Evolves d x) (sym (q.alone n d)) (Evolves-refl d v)

module _ (decimals : Decimals) (ttl : ℕ) (wire : Wire decimals.Decimal) (wide : ℕ → ℕ)
    (reads : (n : ℕ) → 0 < n → (x : decimals.Decimal) × (decimals.of_numeric n ≡ some x)) where
  get_task-heard :
      (id : ℕ) (w : World)
      → (turn w).fate ≡ answered
      → (Postgres.get_task decimals id w).0
        ≡ read_details decimals (select_task id ((turn w).others w.db))
  unfolding Postgres.get_task execute
  get_task-heard id w heard = rw heard refl

  -- What the client of a finished task is answered.
  abbrev pub Shows : ℕ → Text → TaskResponse → Type 0
  Shows id pair r =
      (r.update_id ≡ id)
      × (r.pair ≡ pair)
      × (r.status ≡ done)
      × ((x : decimals.Decimal) × (r.rate ≡ some (format_rate wire x)))

  -- GET /quotes/updates/{id} answers so.
  abbrev pub SeenDone : Bool → ℕ → Text → State World → Type 0
  SeenDone gone id pair s =
      (r : TaskResponse) × ((get_quote_update (served decimals ttl) wire wide (writes gone) id s).0
        ≡ answer 200 (task r))
      × Shows id pair r

  get_quote_update-SeenDone :
      (gone : Bool) (id : ℕ) (pair : Text) (s : State World)
      → (turn s.store).fate ≡ answered
      → Inv ((turn s.store).others s.store.db)
      → Known id pair ((turn s.store).others s.store.db)
      → any (of_update id) ((turn s.store).others s.store.db).quotes ≡ true
      → SeenDone gone id pair s
  unfolding get_quote_update Service.get_task read_details read_quote new_task_response
  get_quote_update-SeenDone gone id pair s heard v known quoted =
      let d = (turn s.store).others s.store.db in
      let (t, q, (found, own, same, finished, positive)) = selected id pair d v known quoted in
      let (x, value) = reads q.rate positive in
      let details : TaskDetails decimals.Decimal = record {
        task = t;
        quote = some (record {
          update_id = q.update_id;
          pair = q.pair;
          rate = x;
          rate_date = q.rate_date;
          fetched_at = q.fetched_at;
        });
      } in
      let read : read_details decimals (some (t, some q)) ≡ ok details =
        rw (value, read_quote) refl in
      (
        new_task_response wire details,
        ap (found_task (served decimals ttl) wire wide (writes gone))
            (get_task-heard id s.store heard ∙ ap (read_details decimals) found ∙ read),
        (own, same, finished, (x, refl)),
      )

  -- After as many rounds of a worker as there are pending tasks, and any steps of the service after
  -- them, GET /quotes/updates/{id} answers each task that was pending with the status done and a rate:
  -- where the provider answers each time with a rate that the column of the quotes takes, nobody else
  -- changes or locks the tables during the rounds, every call of the database is answered, no pending
  -- task has been claimed as often as the column can count, no round is cut short by the context, and
  -- the decimal library reads every positive rate back; from tables that keep the invariant.
  pub get_quote_update-promised :
      (attempts interval : ℕ) (rounds : List (Round decimals.Decimal)) (reports : Reports)
      (w : World)
      → Quiet w.script
      → Inv w.db
      → Room w.db
      → All Fair rounds
      → All (λ r. Answered decimals r.observed) rounds
      → waiting w.db ≤ length rounds
      → (r : Row) → In r w.db.tasks
      → is_pending r.status ≡ true
      → (gone : Bool) (s : State World)
      → Reach
          (run (storage decimals) attempts interval rounds reports w).1.db
          ((turn s.store).others s.store.db)
      → (turn s.store).fate ≡ answered
      → SeenDone gone r.id r.pair s
  get_quote_update-promised attempts interval rounds reports w q v room fair answers h r m p gone s
        reach heard =
      let d = (run (storage decimals) attempts interval rounds reports w).1.db in
      let worked =
        (run-Good decimals attempts interval rounds reports w (Quiet-Rely w.script q) v).evolves in
      let later = Reach-Evolves reach worked.inv in
      let (_, quoted) =
        run_finishes decimals attempts interval rounds reports w q v room fair answers h r m p in
      get_quote_update-SeenDone gone r.id r.pair s heard later.inv
        (Known-Progress r.id r.pair d _ later.progress (
          Known-Progress r.id r.pair w.db d worked.progress (
            In-any (is_task r.id r.pair) r w.db.tasks m
              (ground (arith, text_eq_iff r.pair r.pair)))))
        (any-Extends (of_update r.id) (λ (p q : QuoteRow). q ≡ p) d.quotes _
          (λ x y same e. rw same e) later.progress.quotes quoted)
