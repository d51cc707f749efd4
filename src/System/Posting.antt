-- ===== src/System/Posting.antt =====
-- `CreateTask` of internal/storage/postgres/repository.go among other processes: it publishes steps of the
-- service, on every path, and leaves its key bound to the task that it answers with.
use mathlib.Core.Bool.{false≢true}
use currency_quotes_service.Prelude.{
  sym, Bool-cases, subst, In, find?, find?-In, find?-some, text_eq, ℕ, ◌≡◌, refl, inl, inr, Bool,
  true, false, Option, none, some, Text, Option-cases, arith,
}
use currency_quotes_service.Domain.Errors.{ok}
use currency_quotes_service.Domain.Task.{UpdateTask}
use currency_quotes_service.Storage.Schema.{Db, KeyRow}
use currency_quotes_service.Storage.Idempotency.{bind_key-outcome}
use currency_quotes_service.Storage.Statements.{
  has_id, has_key, is_live, select_by_key, bind_key, insert_task,
}
use currency_quotes_service.Storage.World.{
  World, Tx, turn, wrap, give, begin, query, commit, rollback,
}
use currency_quotes_service.Storage.Repository.{
  select_key_call, bind_in, insert_call, insert_in, replay_task, replay_found, task_by_key,
  replay_by_key, finish_binding, bind_task, insert_and_bind, create_task_with_key, answer_key,
  create_task,
}
use currency_quotes_service.System.{posts, posts_bound, Reach, here, Reach-Step}
use currency_quotes_service.System.Acts.{
  Among, Acts, Acts-refl, Does, bind-Does, call-Does, begin_call-Does, query_call-Does,
  commit_call-Does, rollback_call-Does,
}
use currency_quotes_service.System.Methods.{Anything, publishes}

-- The key is bound to the task.
abbrev pub Bound : ℕ → ℕ → Db → Type 0
Bound key id d = (k : KeyRow) × In k d.keys × (has_key key k ≡ true) × (k.update_id ≡ id)

abbrev Found : ℕ → Option UpdateTask → Db → Type 0
Found key none d = Unit
Found key (some t) d = Bound key t.id d

select_by_key-Found : (now ttl key : ℕ) (d : Db) → Found key (select_by_key now ttl key d) d
unfolding select_by_key
select_by_key-Found now ttl key d = elim (Option-cases (find? (is_live now ttl key) d.keys)) [
  | inl nothing ↦ rw (nothing, Found, select_by_key) tt
  | inr (k, live) ↦ elim (Option-cases (find? (has_id k.update_id) d.tasks)) [
    | inl missing ↦ rw (live, select_by_key) (rw (missing, Found) tt)
    | inr (r, found) ↦
        rw (live, select_by_key)
          (rw (found, Found)
            (
              k,
              find?-In (is_live now ttl key) d.keys k live,
              ground (arith, find?-some (is_live now ttl key) d.keys k live),
              ground (arith, find?-some (has_id k.update_id) d.tasks r found),
            ))
  ]
]

bind_key-Bound :
    (now ttl key id : ℕ) (d d' : Db) → bind_key now ttl key id d ≡ some (true, d') → Bound key id d'
bind_key-Bound now ttl key id d d' e = elim (bind_key-outcome now ttl key id d d' true e) [
  | inl (_, found) ↦ (_, find?-In (has_key key) d'.keys _ found, ground arith, refl)
  | inr (never, _, _) ↦ absurd (false≢true (sym never))
]

module _ (ttl key : ℕ) (pair : Text) where
  abbrev Answered : UpdateTask → World → Type 0
  Answered t w = Bound key t.id w.db

  task_by_key-Does :
      (w : World) → Among w.script → Does w (task_by_key ttl key w) (λ o w'. Found key o w'.db)
  unfolding task_by_key
  task_by_key-Does w among =
      call-Does w among (select_key_call ttl key) (Found key)
        (λ d h. (here, select_by_key-Found (turn w).now ttl key d))

  replay_task-Does :
      (w : World) (t : UpdateTask)
      → Bound key t.id w.db
      → Does w (give (replay_task t pair) w) Answered
  unfolding replay_task
  replay_task-Does w t b = elim (Bool-cases (text_eq t.pair pair)) [
    | inl same ↦ rw same (Acts-refl w, b)
    | inr other ↦ rw other (Acts-refl w, tt)
  ]

  replay_found-Does :
      (w : World) (o : Option UpdateTask)
      → Found key o w.db
      → Does w (replay_found pair o w) Answered
  replay_found-Does w none b = (Acts-refl w, tt)
  replay_found-Does w (some t) b = replay_task-Does w t b

  replay_by_key-Does : (w : World) → Among w.script → Does w (replay_by_key ttl key pair w) Answered
  unfolding replay_by_key
  replay_by_key-Does w among =
      bind-Does w among (task_by_key ttl key) (replay_found pair) (λ o w'. Found key o w'.db)
        Answered (task_by_key-Does w among) (λ o w' a m q. replay_found-Does w' o q)

  finish_binding-Does :
      (w : World) (t : UpdateTask) (b : Bool) (tx : Tx)
      → Among w.script
      → (b ≡ true → Reach w.db tx.view × Bound key t.id tx.view)
      → Does w (finish_binding ttl key pair t (b, tx) w) Answered
  finish_binding-Does w t true tx among h =
      let (reach, own) = h refl in
      bind-Does w among (wrap (commit tx)) (λ _. give (ok t)) (λ _ w'. w'.db ≡ tx.view) Answered
        (commit_call-Does w tx reach)
        (λ _ w' a m q. (Acts-refl w', subst (Bound key t.id) (sym q) own))
  finish_binding-Does w t false tx among h =
      bind-Does w among (wrap rollback) (λ _. replay_by_key ttl key pair) Anything Answered
        (rollback_call-Does w) (λ _ w' a m q. replay_by_key-Does w' m)

  bind_task-Does :
      (w : World) (tx tx' : Tx) (t : UpdateTask) (fresh : ℕ)
      → Among w.script
      → insert_task tx.started fresh pair w.db ≡ some (t, tx'.view)
      → Does w (bind_task ttl key pair tx (t, tx') w) Answered
  bind_task-Does w tx tx' t fresh among e =
      bind-Does w among (wrap (query (bind_in ttl tx key t.id) tx')) (finish_binding ttl key pair t)
        _ Answered (query_call-Does w (bind_in ttl tx key t.id) tx')
        λ (b, tx'') w' a m q. finish_binding-Does w' t b tx'' m (λ bound.
          let now_bound =
            subst (λ b. bind_key tx.started ttl key t.id tx'.view ≡ some (b, tx''.view)) bound
              q.0 in
          (
            rw q.1 (Reach-Step (posts_bound tx.started fresh ttl key pair t tx'.view e now_bound)),
            bind_key-Bound tx.started ttl key t.id tx'.view tx''.view now_bound,
          ))

  insert_and_bind-Does :
      (w : World) (tx : Tx)
      → Among w.script
      → tx.view ≡ w.db
      → Does w (insert_and_bind ttl pair key tx w) Answered
  insert_and_bind-Does w tx among e =
      bind-Does w among (wrap (query (insert_in tx pair) tx)) (bind_task ttl key pair tx) _ Answered
        (query_call-Does w (insert_in tx pair) tx)
        λ (t, tx') w' a m q. bind_task-Does w' tx tx' t (turn w).fresh m (rw (q.1, ← e) q.0)

  create_task_with_key-Does :
      (w : World) → Among w.script → Does w (create_task_with_key ttl pair key w) Answered
  unfolding create_task_with_key
  create_task_with_key-Does w among =
      bind-Does w among (wrap begin) (insert_and_bind ttl pair key) (λ tx w'. tx.view ≡ w'.db)
        Answered (begin_call-Does w among) (λ tx w' a m q. insert_and_bind-Does w' tx m q)

  answer_key-Does :
      (w : World) (o : Option UpdateTask)
      → Among w.script
      → Found key o w.db
      → Does w (answer_key ttl pair key o w) Answered
  answer_key-Does w none among b = create_task_with_key-Does w among
  answer_key-Does w (some t) among b = replay_task-Does w t b

-- A post with a key: on its way it does steps of the service, and when it is answered with a task, the
-- key is bound to that task.
pub create_task-Bound :
    (w : World) (ttl key : ℕ) (pair : Text)
    → Among w.script
    → Does w (create_task ttl pair (some key) w) (λ t w'. Bound key t.id w'.db)
unfolding create_task
create_task-Bound w ttl key pair among =
    bind-Does w among (task_by_key ttl key) (answer_key ttl pair key) (λ o w'. Found key o w'.db)
      (λ t w'. Bound key t.id w'.db) (task_by_key-Does ttl key pair w among)
      (λ o w' a m q. answer_key-Does ttl key pair w' o m q)

pub create_task-Acts :
    (w : World) (ttl : ℕ) (pair : Text) (key : Option ℕ)
    → Among w.script
    → Acts w (create_task ttl pair key w).1
unfolding create_task
create_task-Acts w ttl pair none among =
    (call-Does w among (insert_call pair) Anything
      (λ d h. publishes _ d (λ t d' e. Reach-Step (posts (turn w).now (turn w).fresh pair t e)))).0
create_task-Acts w ttl pair (some key) among = (create_task-Bound w ttl key pair among).0
