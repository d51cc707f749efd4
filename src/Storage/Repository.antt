-- ===== src/Storage/Repository.antt =====
-- The methods of `Repository` in internal/storage/postgres/repository.go, as programs over the
-- calls of World. `ttl` is the field `keyTTL`, in the units of the timestamps.
use currency_quotes_service.Prelude.{
  ℕ, Bool, true, false, [], ◌∷◌, Option, none, some, ◌==◌, ltb, if◌then◌else◌, Text, text_eq,
}
use currency_quotes_service.Domain.Errors.{
  Result, ok, err, sentinel, foreign, wrapped, not_found, key_conflict, stale_claim,
}
use currency_quotes_service.Domain.Task.{UpdateTask, Quote, TaskDetails}
use currency_quotes_service.Storage.Schema.{QuoteRow, Db, max_smallint}
use currency_quotes_service.Storage.Statements.{
  insert_task, bind_key, select_by_key, select_task, select_latest, claim_oldest, close_task,
  insert_quote, fail_held, release_held, release_stale, abandon_stale,
}
use currency_quotes_service.Storage.World.{
  M, Turn, Tx, ◌>>=◌, ◌>>◌, give, wrap, execute, begin, query, commit, rollback,
}

-- What the repository uses of the decimal library and of the casts between its values and
-- numeric(20,10): the cast of a rate (`none` where it is refused or negative, so that the column's
-- CHECK refuses it), and `decimal.NewFromString` of a stored rate's text.
pub record Decimals : Type 1 where
  pub Decimal : Type 0
  pub to_numeric : Decimal → Option ℕ
  pub of_numeric : ℕ → Option Decimal

-- The statements with their arguments, as calls or within a transaction.
module _ (ttl : ℕ) where
  abbrev pub select_key_call : ℕ → Turn → Db → Option (Option UpdateTask × Db)
  select_key_call key t d = some (select_by_key t.now ttl key d, d)

  abbrev pub bind_in : Tx → ℕ → ℕ → Turn → Db → Option (Bool × Db)
  bind_in tx key id t d = bind_key tx.started ttl key id d

abbrev pub insert_call : Text → Turn → Db → Option (UpdateTask × Db)
insert_call pair t d = insert_task t.now t.fresh pair d

abbrev pub insert_in : Tx → Text → Turn → Db → Option (UpdateTask × Db)
insert_in tx pair t d = insert_task tx.started t.fresh pair d

abbrev pub claim_call : Turn → Db → Option (Option UpdateTask × Db)
claim_call t d = claim_oldest t.now t.locked d

abbrev pub fail_call : UpdateTask → Text → Turn → Db → Option (ℕ × Db)
fail_call claim reason t d = some (fail_held t.now claim.id claim.attempts reason d)

abbrev pub release_call : UpdateTask → Turn → Db → Option (ℕ × Db)
release_call claim t d = some (release_held t.now claim.id claim.attempts d)

abbrev pub close_in : Tx → UpdateTask → Turn → Db → Option (ℕ × Db)
close_in tx claim t d = some (close_task tx.started claim.id claim.attempts d)

-- A parameter that is compared with a smallint column is sent as one, so a bound past its range is
-- refused.
abbrev pub with_smallint : ℕ → ℕ × Db → Option (ℕ × Db)
with_smallint n r = if ltb max_smallint n then none else some r

abbrev pub release_in : Tx → ℕ → ℕ → Turn → Db → Option (ℕ × Db)
release_in tx older_than max_attempts t d =
    with_smallint max_attempts (release_stale tx.started older_than max_attempts d)

abbrev pub abandon_in : Tx → ℕ → ℕ → Text → Turn → Db → Option (ℕ × Db)
abandon_in tx older_than max_attempts reason t d =
    with_smallint max_attempts (abandon_stale tx.started older_than max_attempts reason d)

abbrev pub select_task_call : ℕ → Turn → Db → Option (Option (UpdateTask × Option QuoteRow) × Db)
select_task_call id t d = some (select_task id d, d)

abbrev pub select_latest_call : Text → Turn → Db → Option (Option QuoteRow × Db)
select_latest_call pair t d = some (select_latest pair d.quotes, d)

-- The Go methods answer `task, found, err`; a missing row is `none`.
unfoldable pub task_by_key : ℕ → ℕ → M (Option UpdateTask)
task_by_key ttl key = wrap (execute (select_key_call ttl key))

unfoldable pub replay_task : UpdateTask → Text → Result UpdateTask
replay_task task pair = if text_eq task.pair pair then ok task else err (sentinel key_conflict)

abbrev pub replay_found : Text → Option UpdateTask → M UpdateTask
replay_found pair none = give (err foreign)
replay_found pair (some task) = give (replay_task task pair)

-- A key that is held but binds no live task is reported.
unfoldable pub replay_by_key : ℕ → ℕ → Text → M UpdateTask
replay_by_key ttl key pair = do found ← task_by_key ttl key; replay_found pair found

-- The `switch` on the outcome of the binding.
abbrev pub finish_binding : ℕ → ℕ → Text → UpdateTask → Bool × Tx → M UpdateTask
finish_binding ttl key pair task (true, tx) = do wrap (commit tx); give (ok task)
finish_binding ttl key pair task (false, tx) = do wrap rollback; replay_by_key ttl key pair

-- The binding of the key to the task that the transaction has inserted or found.
abbrev pub bind_task : ℕ → ℕ → Text → Tx → UpdateTask × Tx → M UpdateTask
bind_task ttl key pair tx (task, tx') = do
  bound ← wrap (query (bind_in ttl tx key task.id) tx')
  finish_binding ttl key pair task bound

abbrev pub insert_and_bind : ℕ → Text → ℕ → Tx → M UpdateTask
insert_and_bind ttl pair key tx = do
  inserted ← wrap (query (insert_in tx pair) tx)
  bind_task ttl key pair tx inserted

unfoldable pub create_task_with_key : ℕ → Text → ℕ → M UpdateTask
create_task_with_key ttl pair key = do tx ← wrap begin; insert_and_bind ttl pair key tx

abbrev pub answer_key : ℕ → Text → ℕ → Option UpdateTask → M UpdateTask
answer_key ttl pair key (some task) = give (replay_task task pair)
answer_key ttl pair key none = create_task_with_key ttl pair key

unfoldable pub create_task : ℕ → Text → Option ℕ → M UpdateTask
create_task ttl pair none = wrap (execute (insert_call pair))
create_task ttl pair (some key) = do found ← task_by_key ttl key; answer_key ttl pair key found

unfoldable pub claim_task : M (Option UpdateTask)
claim_task = wrap (execute claim_call)

-- A finalisation that affected no row lost its claim.
abbrev pub unless_stale : ℕ → Result (Unit {0})
unless_stale n = if n == 0 then err (wrapped (sentinel stale_claim)) else ok tt

unfoldable pub fail_task : UpdateTask → Text → M (Unit {0})
fail_task claim [] = give (err foreign)
fail_task claim (c ∷ reason) = do
  n ← wrap (execute (fail_call claim (c ∷ reason)))
  give (unless_stale n)

unfoldable pub release_task : UpdateTask → M (Unit {0})
release_task claim = do n ← wrap (execute (release_call claim)); give (unless_stale n)

-- The numbers of released and of failed tasks.
abbrev pub commit_counts : ℕ → ℕ × Tx → M (ℕ × ℕ)
commit_counts released (abandoned, tx) = do wrap (commit tx); give (ok (released, abandoned))

abbrev pub abandon_rest : Tx → ℕ → ℕ → Text → ℕ × Tx → M (ℕ × ℕ)
abandon_rest tx older_than max_attempts reason (released, tx') = do
  abandoned ← wrap (query (abandon_in tx older_than max_attempts reason) tx')
  commit_counts released abandoned

abbrev pub release_first : ℕ → ℕ → Text → Tx → M (ℕ × ℕ)
release_first older_than max_attempts reason tx = do
  released ← wrap (query (release_in tx older_than max_attempts) tx)
  abandon_rest tx older_than max_attempts reason released

unfoldable pub release_stuck_tasks : ℕ → ℕ → Text → M (ℕ × ℕ)
release_stuck_tasks older_than max_attempts [] = give (err foreign)
release_stuck_tasks older_than max_attempts (c ∷ reason) = do
  tx ← wrap begin
  release_first older_than max_attempts (c ∷ reason) tx

module _ (decimals : Decimals) where
  open decimals use {Decimal, to_numeric, of_numeric}

  abbrev pub stored : Option Db → Option (Unit {0} × Db)
  stored none = none
  stored (some d) = some (tt, d)

  abbrev pub insert_quote_in : UpdateTask → Decimal → ℕ → ℕ → Turn → Db → Option (Unit {0} × Db)
  insert_quote_in claim rate rate_date fetched_at t d =
      stored (insert_quote claim.id claim.pair (to_numeric rate) rate_date fetched_at d)

  -- The INSERT and the commit, once the task is closed.
  abbrev pub insert_and_commit : UpdateTask → Decimal → ℕ → ℕ → ℕ × Tx → M (Unit {0})
  insert_and_commit claim rate rate_date fetched_at (n, tx) = do
    give (unless_stale n)
    inserted ← wrap (query (insert_quote_in claim rate rate_date fetched_at) tx)
    wrap (commit inserted.1)

  abbrev pub close_and_insert : UpdateTask → Decimal → ℕ → ℕ → Tx → M (Unit {0})
  close_and_insert claim rate rate_date fetched_at tx = do
    closed ← wrap (query (close_in tx claim) tx)
    insert_and_commit claim rate rate_date fetched_at closed

  unfoldable pub complete_task : UpdateTask → Decimal → ℕ → ℕ → M (Unit {0})
  complete_task claim rate rate_date fetched_at = do
    tx ← wrap begin
    close_and_insert claim rate rate_date fetched_at tx

  -- The quote of a row, if the text of its rate is parsed.
  unfoldable pub read_quote : QuoteRow → Result (Quote Decimal)
  read_quote q = elim (of_numeric q.rate) [
    | none ↦ err (wrapped foreign)
    | some rate ↦ ok (record {
      update_id = q.update_id;
      pair = q.pair;
      rate = rate;
      rate_date = q.rate_date;
      fetched_at = q.fetched_at;
    })
  ]

  abbrev pub with_quote : UpdateTask → Result (Quote Decimal) → Result (TaskDetails Decimal)
  with_quote task (ok q) = ok (record { task = task; quote = some q })
  with_quote task (err e) = err e

  unfoldable pub read_details : Option (UpdateTask × Option QuoteRow) → Result (TaskDetails Decimal)
  read_details none = err (wrapped (sentinel not_found))
  read_details (some (task, none)) = ok (record { task = task; quote = none })
  read_details (some (task, some q)) = with_quote task (read_quote q)

  unfoldable pub get_task : ℕ → M (TaskDetails Decimal)
  get_task id = do found ← wrap (execute (select_task_call id)); give (read_details found)

  unfoldable pub read_latest : Option QuoteRow → Result (Quote Decimal)
  read_latest none = err (wrapped (sentinel not_found))
  read_latest (some q) = read_quote q

  unfoldable pub get_latest_quote : Text → M (Quote Decimal)
  get_latest_quote pair = do
    found ← wrap (execute (select_latest_call pair))
    give (read_latest found)
