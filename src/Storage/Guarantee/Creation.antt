-- ===== src/Storage/Guarantee/Creation.antt =====
-- `CreateTask` of internal/storage/postgres/repository.go, with a key and without one.
use currency_quotes_service.Prelude.{
  ℕ, ◌≡◌, Bool, true, false, Option, none, some, Text, text_eq, text_eq_iff, find?, find?-holds,
  arith, Bool-cases, Option-cases, inl, inr,
}
use currency_quotes_service.Domain.Errors.{ok}
use currency_quotes_service.Domain.Task.{UpdateTask}
use currency_quotes_service.Storage.Schema.{Db, KeyRow}
use currency_quotes_service.Storage.Statements.{has_id, joined_task, select_by_key}
use currency_quotes_service.Storage.World.{World, Tx, begin, query, commit, rollback, wrap, give}
use currency_quotes_service.Storage.Repository.{
  select_key_call, bind_in, insert_call, insert_in, insert_and_bind, bind_task, replay_found,
  task_by_key, replay_task, replay_by_key, finish_binding, create_task_with_key, answer_key,
  create_task,
}
use currency_quotes_service.Storage.Invariant.{Inv, Known, is_task}
use currency_quotes_service.Storage.Progress.{Known-Progress}
use currency_quotes_service.Storage.Guarantee.{
  Evolves, Evolves-refl, Evolves-trans, Rely, Good-refl, Outcome, bind-Safe,
}
use currency_quotes_service.Storage.Guarantee.Calls.{sees_of_keeps, sees_both}
use currency_quotes_service.Storage.Guarantee.Statements.{insert_task-Keeps, bind_key-Keeps}
use currency_quotes_service.Storage.Guarantee.Steps.{
  call-Safe, begin_call-Safe, query_call-Safe, commit_call-Safe, rollback_call-Safe,
}

-- The task is stored, for this pair.
abbrev pub Answers : Text → UpdateTask → Db → Type 0
Answers pair t d = Known t.id pair d × (t.pair ≡ pair)

abbrev Stored : Option UpdateTask → Db → Type 0
Stored none d = Unit
Stored (some t) d = Known t.id t.pair d

joined_task-Stored : (k : Option KeyRow) (d : Db) → Stored (joined_task k d.tasks) d
joined_task-Stored none d = tt
joined_task-Stored (some k) d = elim (Option-cases (find? (has_id k.update_id) d.tasks)) [
  | inl missing ↦ rw (missing, Stored) tt
  | inr (r, found) ↦
      rw (found, Stored)
        (find?-holds (has_id k.update_id) (is_task r.id r.pair) d.tasks r found
          (ground (arith, text_eq_iff r.pair r.pair)))
]

replay_task-Answers :
    (w : World) (task : UpdateTask) (pair : Text)
    → Inv w.db
    → Known task.id task.pair w.db
    → Outcome w (give (replay_task task pair) w) (λ t w'. Answers pair t w'.db)
unfolding replay_task
replay_task-Answers w task pair v k = elim (Bool-cases (text_eq task.pair pair)) [
  | inl same ↦
      let e = (text_eq_iff task.pair pair).0 same in rw same (Good-refl w v, (rw e at k, e))
  | inr other ↦ rw other (Good-refl w v, tt)
]

-- A key already spoken for is answered from the task that it binds.
module _ (ttl key : ℕ) (pair : Text) where
  task_by_key-Safe :
      (w : World)
      → Rely w.script
      → Inv w.db
      → Outcome w (task_by_key ttl key w) (λ o w'. Stored o w'.db)
  unfolding task_by_key select_by_key
  task_by_key-Safe w rely v =
      call-Safe w rely v (select_key_call ttl key) Stored
        (λ d h. (Evolves-refl d h.inv, joined_task-Stored _ d))

  replay_found-Safe :
      (w : World) (o : Option UpdateTask)
      → Inv w.db
      → Stored o w.db
      → Outcome w (replay_found pair o w) (λ t w'. Answers pair t w'.db)
  replay_found-Safe w none v k = (Good-refl w v, tt)
  replay_found-Safe w (some t) v k = replay_task-Answers w t pair v k

  replay_by_key-Safe :
      (w : World)
      → Rely w.script
      → Inv w.db
      → Outcome w (replay_by_key ttl key pair w) (λ t w'. Answers pair t w'.db)
  unfolding replay_by_key
  replay_by_key-Safe w rely v =
      bind-Safe w rely (task_by_key ttl key) (replay_found pair) (λ o w'. Stored o w'.db)
        (λ t w'. Answers pair t w'.db) (task_by_key-Safe w rely v)
        (λ o w' g r q. replay_found-Safe w' o g.evolves.inv q)

  finish_binding-Safe :
      (w : World) (t : UpdateTask) (b : Bool) (tx : Tx)
      → Rely w.script
      → Inv w.db
      → Evolves w.db tx.view
      → Answers pair t tx.view
      → Outcome w (finish_binding ttl key pair t (b, tx) w) (λ t' w'. Answers pair t' w'.db)
  finish_binding-Safe w t true tx rely v h a =
      bind-Safe w rely (wrap (commit tx)) (λ _. give (ok t)) (λ _ w'. w'.db ≡ tx.view)
        (λ t' w'. Answers pair t' w'.db) (commit_call-Safe w rely v tx h)
        (λ _ w' g r q. (Good-refl w' g.evolves.inv, rw q a))
  finish_binding-Safe w t false tx rely v h a =
      bind-Safe w rely (wrap rollback) (λ _. replay_by_key ttl key pair) (λ _ w'. w'.db ≡ w.db)
        (λ t' w'. Answers pair t' w'.db) (rollback_call-Safe w rely v)
        (λ _ w' g r q. replay_by_key-Safe w' r g.evolves.inv)

  bind_task-Safe :
      (w : World) (tx : Tx) (t : UpdateTask) (tx' : Tx)
      → Rely w.script
      → Inv w.db
      → Evolves w.db tx'.view
      → Answers pair t tx'.view
      → Outcome w (bind_task ttl key pair tx (t, tx') w) (λ t' w'. Answers pair t' w'.db)
  bind_task-Safe w tx t tx' rely v h a =
      bind-Safe w rely (wrap (query (bind_in ttl tx key t.id) tx')) (finish_binding ttl key pair t)
        (λ (_, tx'') w'. Evolves tx'.view tx''.view × (w'.db ≡ w.db) × (tx''.started ≡ tx'.started))
        (λ t' w'. Answers pair t' w'.db)
        (query_call-Safe w rely v (bind_in ttl tx key t.id) tx' (λ _ d'. Evolves tx'.view d')
          (sees_of_keeps _ tx'.view _ (bind_key-Keeps tx.started ttl key t.id tx'.view h.inv)))
        λ (b, tx'') w' g r q.
          finish_binding-Safe w' t b tx'' r g.evolves.inv
            (rw q.1 (Evolves-trans w.db tx'.view tx''.view h q.0))
            (Known-Progress t.id pair tx'.view tx''.view q.0.progress a.0, a.1)

  insert_and_bind-Safe :
      (w : World) (tx : Tx)
      → Rely w.script
      → Inv w.db
      → tx.view ≡ w.db
      → Outcome w (insert_and_bind ttl pair key tx w) (λ t w'. Answers pair t w'.db)
  insert_and_bind-Safe w tx rely v e =
      bind-Safe w rely (wrap (query (insert_in tx pair) tx)) (bind_task ttl key pair tx)
        (λ (t, tx') w'.
          (Evolves tx.view tx'.view × Answers pair t tx'.view)
          × (w'.db ≡ w.db)
          × (tx'.started ≡ tx.started))
        (λ t w'. Answers pair t w'.db)
        (query_call-Safe w rely v (insert_in tx pair) tx
          (λ t d'. Evolves tx.view d' × Answers pair t d')
          (sees_both _ tx.view _
            (insert_task-Keeps tx.started (w.script w.at).fresh pair tx.view (rw e v))))
        λ (t, tx') w' g r q. bind_task-Safe w' tx t tx' r g.evolves.inv (rw (q.1, ← e) q.0.0) q.0.1

  create_task_with_key-Safe :
      (w : World)
      → Rely w.script
      → Inv w.db
      → Outcome w (create_task_with_key ttl pair key w) (λ t w'. Answers pair t w'.db)
  unfolding create_task_with_key
  create_task_with_key-Safe w rely v =
      bind-Safe w rely (wrap begin) (insert_and_bind ttl pair key) (λ tx w'. tx.view ≡ w'.db)
        (λ t w'. Answers pair t w'.db) (begin_call-Safe w rely v)
        (λ tx w' g r q. insert_and_bind-Safe w' tx r g.evolves.inv q)

  answer_key-Safe :
      (w : World) (o : Option UpdateTask)
      → Rely w.script
      → Inv w.db
      → Stored o w.db
      → Outcome w (answer_key ttl pair key o w) (λ t w'. Answers pair t w'.db)
  answer_key-Safe w none rely v k = create_task_with_key-Safe w rely v
  answer_key-Safe w (some t) rely v k = replay_task-Answers w t pair v k

-- From tables that keep the invariant, and as long as others keep it and move the tables forward
-- only, so does `CreateTask`, with a key or without one and on every path; a task that it answers is
-- for the pair that was asked for, and stands in the table with it.
pub create_task-Safe :
    (w : World) (ttl : ℕ) (pair : Text) (key : Option ℕ)
    → Rely w.script
    → Inv w.db
    → Outcome w (create_task ttl pair key w) (λ t w'. Answers pair t w'.db)
unfolding create_task
create_task-Safe w ttl pair none rely v =
    call-Safe w rely v (insert_call pair) (Answers pair)
      (λ d h. insert_task-Keeps (w.script w.at).now (w.script w.at).fresh pair d h.inv)
create_task-Safe w ttl pair (some key) rely v =
    bind-Safe w rely (task_by_key ttl key) (answer_key ttl pair key) (λ o w'. Stored o w'.db)
      (λ t w'. Answers pair t w'.db) (task_by_key-Safe ttl key pair w rely v)
      (λ o w' g r q. answer_key-Safe ttl key pair w' o r g.evolves.inv q)
