-- ===== src/Tests/Tables.antt =====
-- What single calls read and write, on the sample.
use currency_quotes_service.Prelude.{
  ℕ, ◌≤◌, ◌≡◌, refl, ◌⊎◌, true, false, [], ◌∷◌, Option, some, codes, any, find?, count_if, text_eq,
  if◌then◌else◌, All, In, arith,
}
use currency_quotes_service.Domain.Errors.{ok, err, sentinel, key_conflict}
use currency_quotes_service.Domain.Task.{UpdateTask, TaskDetails, in_progress}
use currency_quotes_service.Storage.Schema.{QuoteRow, Db, scan_task}
use currency_quotes_service.Storage.Statements.{
  update, bind_key, claim_oldest, oldest_pending, is_stale, select_task, select_latest,
}
use currency_quotes_service.Storage.World.{World, execute}
use currency_quotes_service.Storage.Repository.{
  claim_task, complete_task, get_task, get_latest_quote, release_stuck_tasks, create_task,
  read_details, read_latest, read_quote,
}
use currency_quotes_service.Storage.Claiming.{Claimed, claim_task-Claimed}
use currency_quotes_service.Storage.Finalising.{IsOk, Completed, complete_task-atomic}
use currency_quotes_service.Storage.Reading.{
  Consistent, Reads, get_task-Consistent, get_latest_quote-newest,
}
use currency_quotes_service.Storage.Recovering.{recovered, AddUp, release_stuck_tasks-partition}
use currency_quotes_service.Storage.Idempotency.{create_task-replay}
use currency_quotes_service.Tests.Sample.{
  eur_mxn, running_row, waiting_row, done_row, bound_key, busy, busy-Inv, start, claim, exact,
}

-- The waiting task, as a claim at the time 100 answers it.
abbrev pub claimed_task : UpdateTask
claimed_task = record (scan_task waiting_row) {
  status = in_progress;
  attempts = 1;
  updated_at = 100;
}

abbrev pub after_claim : World
after_claim = record start {
  db = record busy {
    tasks =
        running_row
        ∷ record waiting_row { status = in_progress; attempts = 1; updated_at = 100 }
        ∷ done_row
        ∷ [];
  };
  at = 1;
}

pub claims_waiting : claim_task start ≡ (ok (some claimed_task), after_claim)
unfolding claim_task execute claim_oldest oldest_pending update count_if
claims_waiting = refl

claim_task-Claimed_example : Claimed 100 (λ _. false) busy (some claimed_task) after_claim.db
claim_task-Claimed_example = claim_task-Claimed start after_claim (some claimed_task) claims_waiting

complete_task-atomic_example :
    let r = complete_task exact claim 196948000000 90 95 start in
    ((r.1.db ≡ busy) × (¬ IsOk r.0)) ⊎ Completed exact claim 196948000000 90 95 100 busy r.1.db
complete_task-atomic_example = complete_task-atomic exact claim 196948000000 90 95 start

-- A claim of the running task under an attempt that is not its own.
abbrev lost_claim : UpdateTask
lost_claim = record claim { attempts = 7 }

abbrev done_details : TaskDetails ℕ
done_details = record {
  task = scan_task done_row;
  quote = some (record {
    update_id = 3;
    pair = eur_mxn;
    rate = 201394500000;
    rate_date = 4;
    fetched_at = 5;
  });
}

reads_done : get_task exact 3 start ≡ (ok done_details, record start { at = 1 })
unfolding get_task execute select_task find? read_details read_quote
reads_done = refl

get_task-Consistent_example :
    (o : Option QuoteRow) × (3 ≡ done_details.task.id)
    × Consistent done_details.task o
    × Reads exact done_details o
    × (busy ≡ busy)
get_task-Consistent_example =
    get_task-Consistent exact 3 start (record start { at = 1 }) done_details busy-Inv reads_done

reads_latest : get_latest_quote exact eur_mxn start ≡ (
  ok (record { update_id = 3; pair = eur_mxn; rate = 201394500000; rate_date = 4; fetched_at = 5 }),
  record start { at = 1 },
)
unfolding get_latest_quote execute select_latest text_eq read_latest read_quote
reads_latest = refl

get_latest_quote-newest_example :
    (p : QuoteRow) × In p busy.quotes
    × (p.pair ≡ eur_mxn)
    × All (λ s. text_eq s.pair eur_mxn ≡ true → s.fetched_at ≤ p.fetched_at) busy.quotes
    × (read_quote exact p
        ≡ ok (record {
          update_id = 3;
          pair = eur_mxn;
          rate = 201394500000;
          rate_date = 4;
          fetched_at = 5;
        }))
    × (busy ≡ busy)
get_latest_quote-newest_example =
    get_latest_quote-newest exact eur_mxn start (record start { at = 1 }) _ reads_latest

release_stuck_tasks-partition_example :
    let r = release_stuck_tasks 60 3 (codes "no") start in
    ((r.1.db ≡ busy) × (¬ IsOk r.0))
    ⊎ ((r.1.db ≡ recovered 100 60 3 (codes "no") busy)
        × AddUp r.0 (count_if (is_stale 100 60) busy.tasks))
release_stuck_tasks-partition_example = release_stuck_tasks-partition 60 3 b'n' (b'o' ∷ []) start

-- The key 9 is bound to the task that is done: the post is answered with it.
create_task-replay_example :
    let a = create_task 3600 eur_mxn (some 9) start in
    (a.0
      ≡ (if text_eq eur_mxn eur_mxn then ok (scan_task done_row) else err (sentinel key_conflict)))
    × (a.1.db ≡ busy)
unfolding find?
create_task-replay_example =
    create_task-replay 3600 9 eur_mxn start bound_key done_row refl refl (omega arith) refl

abbrev key_added : Db
key_added = record busy {
  keys = bound_key ∷ record { key = 4; update_id = 2; created_at = 100 } ∷ [];
}

binds_new : bind_key 100 3600 4 2 busy ≡ some (true, key_added)
unfolding bind_key find? any
binds_new = refl
