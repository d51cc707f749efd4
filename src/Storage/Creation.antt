-- ===== src/Storage/Creation.antt =====
-- Laws of `CreateTask` in internal/storage/postgres/repository.go: the task that it answers is read from
-- a row of the tables that it leaves.
pub mod Calls
use currency_quotes_service.Prelude.{
  In-last, ℕ, suc, ◌≡◌, refl, sym, subst, inl, inr, Bool, true, false, List, [], ◌∷◌, ◌++◌, Option,
  none, some, Text, In, find?, find?-In, text_eq, Option-cases, Bool-cases, arith,
}
use currency_quotes_service.Domain.Errors.{Result, ok, err}
use currency_quotes_service.Domain.Task.{UpdateTask}
use currency_quotes_service.Storage.Schema.{Row, Db, scan_task}
use currency_quotes_service.Storage.Statements.{
  has_id, is_live, occupies, new_row, insert_task, bind_key, select_by_key,
}
use currency_quotes_service.Storage.World.{
  World, Turn, Tx, Fate, refused, answered, unheard, answer, answer_tx, committed, M, ◌>>=◌, turn,
  begin, query, commit, rollback, execute, wrap, give,
}
use currency_quotes_service.Storage.Repository.{
  select_key_call, insert_call, insert_in, bind_in, task_by_key, replay_task, replay_found,
  replay_by_key, finish_binding, bind_task, insert_and_bind, create_task_with_key, answer_key,
  create_task,
}
use currency_quotes_service.Storage.Guarantee.{After}
use currency_quotes_service.Storage.Creation.Calls.{
  bind-After, call-After, query-After, commit-After, any-After, After-mono,
}

-- The task is read from a row of the tables.
abbrev pub FromRow : UpdateTask → Db → Type 0
FromRow t d = (r : Row) × In r d.tasks × (scan_task r ≡ t)

insert_task-FromRow :
    (now fresh : ℕ) (pair : Text) (d d' : Db) (t : UpdateTask)
    → insert_task now fresh pair d ≡ some (t, d')
    → FromRow t d'
unfolding insert_task
insert_task-FromRow now fresh pair d d' t e = elim (Option-cases (find? (occupies pair) d.tasks)) [
  | inl free ↦
      let grown : d.tasks ++ new_row now fresh pair ∷ [] ≡ d'.tasks = ground (arith, free) in
      (
        new_row now fresh pair,
        subst (In (new_row now fresh pair)) grown (In-last d.tasks (new_row now fresh pair)),
        ground (arith, free),
      )
  | inr (r, found) ↦
      let same : d.tasks ≡ d'.tasks = ground (arith, found) in
      (r, subst (In r) same (find?-In (occupies pair) d.tasks r found), ground (arith, found))
]

bind_key-tasks :
    (now ttl key id : ℕ) (d d' : Db) (b : Bool)
    → bind_key now ttl key id d ≡ some (b, d')
    → d.tasks ≡ d'.tasks
unfolding bind_key
bind_key-tasks now ttl key id d d' b e = ground arith

select_by_key-FromRow :
    (now ttl key : ℕ) (d : Db) (t : UpdateTask) → select_by_key now ttl key d ≡ some t → FromRow t d
unfolding select_by_key
select_by_key-FromRow now ttl key d t e = elim (Option-cases (find? (is_live now ttl key) d.keys)) [
  | inl missing ↦ ground (arith, missing)
  | inr (k, live) ↦ elim (Option-cases (find? (has_id k.update_id) d.tasks)) [
    | inl missing ↦ ground (arith, live, missing)
    | inr (r, found) ↦
        (r, find?-In (has_id k.update_id) d.tasks r found, ground (arith, live, found))
  ]
]

abbrev Seen : Option UpdateTask → Db → Type 0
Seen none d = Unit
Seen (some t) d = FromRow t d

module _ (ttl key : ℕ) (pair : Text) where
  selected-Seen :
      (t : Turn) (d d' : Db) (o : Option UpdateTask)
      → select_key_call ttl key t d ≡ some (o, d')
      → Seen o d'
  selected-Seen u d d' none e = tt
  selected-Seen u d d' (some t) e =
      let same : d.tasks ≡ d'.tasks = ground arith in
      let (r, m, own) = select_by_key-FromRow u.now ttl key d t (ground arith) in
      (r, subst (In r) same m, own)

  task_by_key-Seen : (w : World) → After (task_by_key ttl key w) (λ o w'. Seen o w'.db)
  unfolding task_by_key
  task_by_key-Seen w =
      After-mono (wrap (execute (select_key_call ttl key)) w) _ (λ o w'. Seen o w'.db)
        (λ o w' e. selected-Seen (turn w) ((turn w).others w.db) w'.db o e)
        (call-After w (select_key_call ttl key))

  replay_task-FromRow :
      (w : World) (t : UpdateTask)
      → FromRow t w.db
      → After (give (replay_task t pair) w) (λ t w'. FromRow t w'.db)
  unfolding replay_task
  replay_task-FromRow w t h = elim (Bool-cases (text_eq t.pair pair)) [
    | inl same ↦ rw same h
    | inr other ↦ rw other tt
  ]

  replay_found-FromRow :
      (w : World) (o : Option UpdateTask)
      → Seen o w.db
      → After (replay_found pair o w) (λ t w'. FromRow t w'.db)
  replay_found-FromRow w none h = tt
  replay_found-FromRow w (some t) h = replay_task-FromRow w t h

  replay_by_key-FromRow :
      (w : World) → After (replay_by_key ttl key pair w) (λ t w'. FromRow t w'.db)
  unfolding replay_by_key
  replay_by_key-FromRow w =
      bind-After w (task_by_key ttl key w) (replay_found pair) (λ o w'. Seen o w'.db)
        (λ t w'. FromRow t w'.db) (task_by_key-Seen w) (λ o w' h. replay_found-FromRow w' o h)

  finish_binding-FromRow :
      (w : World) (t : UpdateTask) (b : Bool) (tx : Tx)
      → FromRow t tx.view
      → After (finish_binding ttl key pair t (b, tx) w) (λ t w'. FromRow t w'.db)
  finish_binding-FromRow w t true tx h =
      bind-After w (wrap (commit tx) w) (λ _. give (ok t)) (λ _ w'. w'.db ≡ tx.view)
        (λ t w'. FromRow t w'.db) (commit-After w tx) (λ _ w' e. subst (FromRow t) (sym e) h)
  finish_binding-FromRow w t false tx h =
      bind-After w (wrap rollback w) (λ _. replay_by_key ttl key pair) (λ _ w'. Unit {0})
        (λ t w'. FromRow t w'.db) (any-After w (wrap rollback w))
        (λ _ w' _. replay_by_key-FromRow w')

  bind_task-FromRow :
      (w : World) (tx : Tx) (t : UpdateTask) (tx' : Tx)
      → FromRow t tx'.view
      → After (bind_task ttl key pair tx (t, tx') w) (λ t w'. FromRow t w'.db)
  bind_task-FromRow w tx t tx' (r, m, e) =
      bind-After w (wrap (query (bind_in ttl tx key t.id) tx') w) (finish_binding ttl key pair t) _
        (λ t w'. FromRow t w'.db) (query-After w (bind_in ttl tx key t.id) tx')
        λ (b, tx'') w' same.
          finish_binding-FromRow w' t b tx'' (
            r,
            subst (In r) (bind_key-tasks tx.started ttl key t.id tx'.view tx''.view b same) m,
            e,
          )

  insert_and_bind-FromRow :
      (w : World) (tx : Tx) → After (insert_and_bind ttl pair key tx w) (λ t w'. FromRow t w'.db)
  insert_and_bind-FromRow w tx =
      bind-After w (wrap (query (insert_in tx pair) tx) w) (bind_task ttl key pair tx) _
        (λ t w'. FromRow t w'.db) (query-After w (insert_in tx pair) tx)
        λ (t, tx') w' e.
          bind_task-FromRow w' tx t tx'
            (insert_task-FromRow tx.started (turn w).fresh pair tx.view tx'.view t e)

  create_task_with_key-FromRow :
      (w : World) → After (create_task_with_key ttl pair key w) (λ t w'. FromRow t w'.db)
  unfolding create_task_with_key
  create_task_with_key-FromRow w =
      bind-After w (wrap begin w) (insert_and_bind ttl pair key) (λ _ w'. Unit {0})
        (λ t w'. FromRow t w'.db) (any-After w (wrap begin w))
        (λ tx w' _. insert_and_bind-FromRow w' tx)

  answer_key-FromRow :
      (w : World) (o : Option UpdateTask)
      → Seen o w.db
      → After (answer_key ttl pair key o w) (λ t w'. FromRow t w'.db)
  answer_key-FromRow w none h = create_task_with_key-FromRow w
  answer_key-FromRow w (some t) h = replay_task-FromRow w t h

-- The task that `CreateTask` answers, with a key or without one and on every path, is read from a row of
-- the tables that it leaves.
pub create_task-FromRow :
    (w : World) (ttl : ℕ) (pair : Text) (key : Option ℕ)
    → After (create_task ttl pair key w) (λ t w'. FromRow t w'.db)
unfolding create_task
create_task-FromRow w ttl pair none =
    After-mono (wrap (execute (insert_call pair)) w) _ (λ t w'. FromRow t w'.db)
      (λ t w' e. insert_task-FromRow (turn w).now (turn w).fresh pair _ w'.db t e)
      (call-After w (insert_call pair))
create_task-FromRow w ttl pair (some key) =
    bind-After w (task_by_key ttl key w) (answer_key ttl pair key) (λ o w'. Seen o w'.db)
      (λ t w'. FromRow t w'.db) (task_by_key-Seen ttl key pair w)
      (λ o w' h. answer_key-FromRow ttl key pair w' o h)
