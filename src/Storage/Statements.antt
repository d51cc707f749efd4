-- ===== src/Storage/Statements.antt =====
-- The SQL statements of internal/storage/postgres/repository.go, each as a function on the tables.
-- `none` is a statement that the database refuses, by a constraint or a value out of range. The time
-- `now` is that of the transaction, in the units of the timestamps.
use currency_quotes_service.Prelude.{
  ℕ, ◌+◌, Bool, true, false, ◌&&◌, not, List, [], ◌∷◌, ◌++◌, map, Option, none, some, ◌==◌, leb,
  ltb, if◌then◌else◌, any, find?, count_if, Text, text_eq,
}
use currency_quotes_service.Domain.Task.{
  UpdateTask, pending, in_progress, done, failed, is_pending, is_in_progress,
}
use currency_quotes_service.Storage.Schema.{
  Row, QuoteRow, KeyRow, Db, has_pair_shape, is_unfinished, max_smallint, scan_task,
}

abbrev pub has_id : ℕ → Row → Bool
has_id id r = r.id == id

-- One row under UPDATE … SET … WHERE.
abbrev pub touch : (Row → Bool) → (Row → Row) → Row → Row
touch test set r = if test r then set r else r

-- UPDATE quote_updates: the tables after it, beside the number of rows affected.
unfoldable pub update : (Row → Bool) → (Row → Row) → Db → ℕ × Db
update test set d = (count_if test d.tasks, record d { tasks = map (touch test set) d.tasks })

-- The rows that conflict with a new task of the pair.
abbrev pub occupies : Text → Row → Bool
occupies pair r = is_unfinished r.status && text_eq r.pair pair

abbrev pub new_row : ℕ → ℕ → Text → Row
new_row now fresh pair = record {
  id = fresh;
  pair = pair;
  status = pending;
  attempts = 0;
  error = none;
  created_at = now;
  updated_at = now;
}

-- The statement of `insertTask`; `fresh` is what gen_random_uuid() answers.
unfoldable pub insert_task : ℕ → ℕ → Text → Db → Option (UpdateTask × Db)
insert_task now fresh pair d =
    if not (has_pair_shape pair) then none else elim (find? (occupies pair) d.tasks) [
      | some r ↦ some (scan_task r, d)
      | none ↦
          if any (has_id fresh) d.tasks
          then none
          else some (
            scan_task (new_row now fresh pair),
            record d { tasks = d.tasks ++ new_row now fresh pair ∷ [] },
          )
    ]

abbrev pub has_key : ℕ → KeyRow → Bool
has_key key k = k.key == key

-- SET update_id = EXCLUDED.update_id, created_at = now() on the row of the key.
abbrev pub rebind : ℕ → ℕ → ℕ → KeyRow → KeyRow
rebind now key id k =
    if has_key key k then record { key = key; update_id = id; created_at = now } else k

-- The statement `bindQuery` of `createTaskWithKey`: whether a row came back.
unfoldable pub bind_key : ℕ → ℕ → ℕ → ℕ → Db → Option (Bool × Db)
bind_key now ttl key id d = elim (find? (has_key key) d.keys) [
  | none ↦
      if any (has_id id) d.tasks
      then some (
        true,
        record d { keys = d.keys ++ record { key = key; update_id = id; created_at = now } ∷ [] },
      )
      else none
  | some k ↦
      if leb (k.created_at + ttl) now
      then (if any (has_id id) d.tasks
          then some (true, record d { keys = map (rebind now key id) d.keys })
          else none)
      else some (false, d)
]

-- The rows of idempotency_keys that the statement of `taskByKey` selects.
abbrev pub is_live : ℕ → ℕ → ℕ → KeyRow → Bool
is_live now ttl key k = k.key == key && ltb now (k.created_at + ttl)

abbrev pub joined_task : Option KeyRow → List Row → Option UpdateTask
joined_task none rows = none
joined_task (some k) rows = elim (find? (has_id k.update_id) rows) [
  | none ↦ none
  | some r ↦ some (scan_task r)
]

-- The statement of `taskByKey`.
unfoldable pub select_by_key : ℕ → ℕ → ℕ → Db → Option UpdateTask
select_by_key now ttl key d = joined_task (find? (is_live now ttl key) d.keys) d.tasks

-- LEFT JOIN quotes: the quote of a task, if it has one.
abbrev pub of_update : ℕ → QuoteRow → Bool
of_update id q = q.update_id == id

-- The statement of `GetTask`.
unfoldable pub select_task : ℕ → Db → Option (UpdateTask × Option QuoteRow)
select_task id d = elim (find? (has_id id) d.tasks) [
  | none ↦ none
  | some r ↦ some (scan_task r, find? (of_update id) d.quotes)
]

abbrev newer : QuoteRow → Option QuoteRow → QuoteRow
newer q none = q
newer q (some p) = if ltb q.fetched_at p.fetched_at then p else q

-- The statement of `GetLatestQuote`: WHERE pair ORDER BY fetched_at DESC LIMIT 1.
unfoldable pub select_latest : Text → List QuoteRow → Option QuoteRow
select_latest pair [] = none
select_latest pair (q ∷ qs) =
    let rest = select_latest pair qs in if text_eq q.pair pair then some (newer q rest) else rest

abbrev earlier : Row → Option Row → Row
earlier r none = r
earlier r (some s) = if ltb s.created_at r.created_at then s else r

-- The subquery of `ClaimTask`: ORDER BY created_at LIMIT 1 FOR UPDATE SKIP LOCKED over the pending
-- rows; `locked` says which rows other transactions hold.
unfoldable pub oldest_pending : (ℕ → Bool) → List Row → Option Row
oldest_pending locked [] = none
oldest_pending locked (r ∷ rs) =
    let rest = oldest_pending locked rs in
    if is_pending r.status && not (locked r.id) then some (earlier r rest) else rest

abbrev pub claimed : ℕ → Row → Row
claimed now r = record r { status = in_progress; attempts = r.attempts + 1; updated_at = now }

-- The statement of `ClaimTask`; attempts + 1 is refused past the end of smallint.
unfoldable pub claim_oldest : ℕ → (ℕ → Bool) → Db → Option (Option UpdateTask × Db)
claim_oldest now locked d = elim (oldest_pending locked d.tasks) [
  | none ↦ some (none, d)
  | some r ↦
      if ltb r.attempts max_smallint
      then some (some (scan_task (claimed now r)), (update (has_id r.id) (claimed now) d).1)
      else none
]

-- WHERE id = $1 AND status = 'in_progress' AND attempts = $2.
abbrev pub is_held : ℕ → ℕ → Row → Bool
is_held id attempts r = r.id == id && is_in_progress r.status && r.attempts == attempts

-- `closeTask` of `CompleteTask`.
abbrev pub close_task : ℕ → ℕ → ℕ → Db → ℕ × Db
close_task now id attempts =
    update (is_held id attempts) (λ r. record r { status = done; error = none; updated_at = now })

abbrev pub new_quote : ℕ → Text → ℕ → ℕ → ℕ → QuoteRow
new_quote id pair rate_date fetched_at rate = record {
  update_id = id;
  pair = pair;
  rate = rate;
  rate_date = rate_date;
  fetched_at = fetched_at;
}

-- `insertQuote` of `CompleteTask`; `rate` is what the cast to numeric(20,10) makes of the rate.
unfoldable pub insert_quote : ℕ → Text → Option ℕ → ℕ → ℕ → Db → Option Db
insert_quote id pair none rate_date fetched_at d = none
insert_quote id pair (some rate) rate_date fetched_at d =
    if rate == 0
    then none
    else if any (of_update id) d.quotes
    then none
    else if any (has_id id) d.tasks
    then some (record d { quotes = d.quotes ++ new_quote id pair rate_date fetched_at rate ∷ [] })
    else none

-- The statement of `FailTask`.
abbrev pub fail_held : ℕ → ℕ → ℕ → Text → Db → ℕ × Db
fail_held now id attempts reason =
    update (is_held id attempts)
      (λ r. record r { status = failed; error = some reason; updated_at = now })

-- The statement of `ReleaseTask`.
abbrev pub release_held : ℕ → ℕ → ℕ → Db → ℕ × Db
release_held now id attempts =
    update (is_held id attempts) (λ r. record r { status = pending; updated_at = now })

abbrev pub is_stale : ℕ → ℕ → Row → Bool
is_stale now older_than r = is_in_progress r.status && ltb (r.updated_at + older_than) now

-- `releaseQuery` of `ReleaseStuckTasks`.
abbrev pub release_stale : ℕ → ℕ → ℕ → Db → ℕ × Db
release_stale now older_than max_attempts =
    update (λ r. is_stale now older_than r && ltb r.attempts max_attempts)
      (λ r. record r { status = pending; updated_at = now })

-- `abandonQuery` of `ReleaseStuckTasks`.
abbrev pub abandon_stale : ℕ → ℕ → ℕ → Text → Db → ℕ × Db
abandon_stale now older_than max_attempts reason =
    update (λ r. is_stale now older_than r && leb max_attempts r.attempts)
      (λ r. record r { status = failed; error = some reason; updated_at = now })
