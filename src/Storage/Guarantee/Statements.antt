-- ===== src/Storage/Guarantee/Statements.antt =====
-- The statements of internal/storage/postgres/repository.go: what each promises of the tables, and what
-- its caller goes on to rely on.
use currency_quotes_service.Prelude.{
  ℕ, ◌<◌, ◌≡◌, ◌≢◌, refl, ◌∙◌, Bool, true, ◌&&◌, ◌∷◌, Option, none, some, ltb, leb, Text,
  text_eq_iff, any, any-map, In-any, find?, find?-some, All-every, All-mono, arith, Option-cases,
  Bool-cases, inl, inr,
}
use currency_quotes_service.Domain.Task.{UpdateTask}
use currency_quotes_service.Storage.Schema.{Row, Db, scan_task, max_smallint}
use currency_quotes_service.Storage.Statements.{
  has_id, update, occupies, insert_task, bind_key, oldest_pending, claimed, claim_oldest, is_held,
  fail_held, release_held, release_stale, abandon_stale, is_stale, close_task, insert_quote,
}
use currency_quotes_service.Storage.Rows.Moves.{Moves, Moves-release, Moves-fail, Moves-close}
use currency_quotes_service.Storage.Invariant.{Inv, Known}
use currency_quotes_service.Storage.Invariant.Inserts.{insert_task-Inv, bind_key-Inv}
use currency_quotes_service.Storage.Invariant.Claims.{
  release_held-Inv, fail_held-Inv, release_stale-Inv, abandon_stale-Inv, claimed-Allowed,
  oldest_pending-In,
}
use currency_quotes_service.Storage.Invariant.Updates.{Allowed, update-Inv}
use currency_quotes_service.Storage.Invariant.Completion.{complete-Inv}
use currency_quotes_service.Storage.Progress.{
  Progress, Progress-trans, update-Progress, insert_task-Progress, bind_key-Progress,
  insert_quote-Progress,
}
use currency_quotes_service.Storage.Guarantee.{Evolves, Evolves-refl}
use currency_quotes_service.Storage.Guarantee.Calls.{Keeps}

keeps_of :
    {A : Type 0} (r : Option (A × Db)) (d : Db) (Q : A → Db → Type 0)
    → ((a : A) (d' : Db) → r ≡ some (a, d') → Evolves d d' × Q a d')
    → Keeps r d Q
keeps_of none d Q k = tt
keeps_of (some (a, d')) d Q k = k a d' refl

insert_task-pair :
    (now fresh : ℕ) (pair : Text) (d d' : Db) (t : UpdateTask)
    → insert_task now fresh pair d ≡ some (t, d')
    → t.pair ≡ pair
unfolding insert_task
insert_task-pair now fresh pair d d' t e = elim (Option-cases (find? (occupies pair) d.tasks)) [
  | inl free ↦ ground (arith, free)
  | inr (r, found) ↦
      ground (arith, found, find?-some (occupies pair) d.tasks r found, text_eq_iff r.pair pair)
]

-- The task is for the pair that was asked for.
pub insert_task-Keeps :
    (now fresh : ℕ) (pair : Text) (d : Db)
    → Inv d
    → Keeps (insert_task now fresh pair d) d (λ t d'. Known t.id pair d' × (t.pair ≡ pair))
insert_task-Keeps now fresh pair d v = keeps_of (insert_task now fresh pair d) d _ λ t d' e.
    let (inv, known) = insert_task-Inv now fresh pair d t d' e v in
    (
      record { inv = inv; progress = insert_task-Progress now fresh pair d d' t e },
      (known, insert_task-pair now fresh pair d d' t e),
    )

pub bind_key-Keeps :
    (now ttl key id : ℕ) (d : Db)
    → Inv d
    → Keeps (bind_key now ttl key id d) d (λ b d'. Progress d d')
bind_key-Keeps now ttl key id d v = keeps_of (bind_key now ttl key id d) d _ λ b d' e. (
  record {
    inv = bind_key-Inv now ttl key id d b d' e v;
    progress = bind_key-Progress now ttl key id d d' b e;
  },
  bind_key-Progress now ttl key id d d' b e,
)

-- What a claim that was answered holds.
abbrev pub Holds : Option UpdateTask → Db → Type 0
Holds none d = Unit
Holds (some t) d = Known t.id t.pair d × (any (is_held t.id t.attempts) d.tasks ≡ true)

-- The row that was claimed is held under the token that the claim answers with.
pub claimed-Holds :
    (now : ℕ) (locked : ℕ → Bool) (d : Db) (r : Row)
    → oldest_pending locked d.tasks ≡ some r
    → Holds (some (scan_task (claimed now r))) (update (has_id r.id) (claimed now) d).1
unfolding update
claimed-Holds now locked d r e =
    let (m, _, _) = oldest_pending-In locked d.tasks r e in
    (
      any-map _ _ d.tasks ∙ In-any _ r d.tasks m (ground (arith, text_eq_iff r.pair r.pair)),
      any-map _ _ d.tasks ∙ In-any _ r d.tasks m (ground arith),
    )

pub claimed-Evolves :
    (now : ℕ) (locked : ℕ → Bool) (d : Db) (r : Row)
    → Inv d
    → oldest_pending locked d.tasks ≡ some r
    → r.attempts < max_smallint
    → Evolves d (update (has_id r.id) (claimed now) d).1
claimed-Evolves now locked d r v e b =
    let allowed = claimed-Allowed now locked d r v e b in
    record {
      inv = update-Inv (has_id r.id) (claimed now) d allowed v;
      progress = update-Progress (has_id r.id) (claimed now) d (
          All-mono (λ s. has_id r.id s ≡ true → Allowed (claimed now) s)
            (λ s. has_id r.id s ≡ true → Moves s (claimed now s)) d.tasks (λ s a h. (a h).0)
            allowed);
    }

-- A claim answers with nothing, or with a task that it holds.
pub claim_oldest-Keeps :
    (now : ℕ) (locked : ℕ → Bool) (d : Db) → Inv d → Keeps (claim_oldest now locked d) d Holds
unfolding claim_oldest
claim_oldest-Keeps now locked d v = elim (Option-cases (oldest_pending locked d.tasks)) [
  | inl nothing ↦ rw (nothing, claim_oldest) (Evolves-refl d v, tt)
  | inr (r, found) ↦ elim (Bool-cases (ltb r.attempts max_smallint)) [
    | inr full ↦ rw (found, claim_oldest) (rw full tt)
    | inl room ↦
        rw (found, claim_oldest)
          (rw room (
            claimed-Evolves now locked d r v found (ground arith),
            claimed-Holds now locked d r found,
          ))
  ]
]

pub release_held-Keeps :
    (now id attempts : ℕ) (d : Db) → Inv d → Evolves d (release_held now id attempts d).1
release_held-Keeps now id attempts d v = record {
  inv = release_held-Inv now id attempts d v;
  progress =
      update-Progress (is_held id attempts) _ d
        (All-every _ d.tasks (λ r t. Moves-release now r (ground arith)));
}

pub fail_held-Keeps :
    (now id attempts c : ℕ) (reason : Text) (d : Db)
    → Inv d
    → Evolves d (fail_held now id attempts (c ∷ reason) d).1
fail_held-Keeps now id attempts c reason d v = record {
  inv = fail_held-Inv now id attempts c reason d v;
  progress =
      update-Progress (is_held id attempts) _ d
        (All-every _ d.tasks (λ r t. Moves-fail now c reason r (ground arith)));
}

pub release_stale-Keeps :
    (now older_than max_attempts : ℕ) (d : Db)
    → Inv d
    → Evolves d (release_stale now older_than max_attempts d).1
release_stale-Keeps now older_than max_attempts d v = record {
  inv = release_stale-Inv now older_than max_attempts d v;
  progress =
      update-Progress (λ r. is_stale now older_than r && ltb r.attempts max_attempts) _ d
        (All-every _ d.tasks (λ r t. Moves-release now r (ground arith)));
}

pub abandon_stale-Keeps :
    (now older_than max_attempts c : ℕ) (reason : Text) (d : Db)
    → Inv d
    → Evolves d (abandon_stale now older_than max_attempts (c ∷ reason) d).1
abandon_stale-Keeps now older_than max_attempts c reason d v = record {
  inv = abandon_stale-Inv now older_than max_attempts c reason d v;
  progress =
      update-Progress (λ r. is_stale now older_than r && leb max_attempts r.attempts) _ d
        (All-every _ d.tasks (λ r t. Moves-fail now c reason r (ground arith)));
}

-- Both statements of `CompleteTask` together.
pub complete-Keeps :
    (now id attempts : ℕ) (pair : Text) (rate : Option ℕ) (rate_date fetched_at : ℕ) (d d' : Db)
    → (close_task now id attempts d).0 ≢ 0
    → insert_quote id pair rate rate_date fetched_at (close_task now id attempts d).1 ≡ some d'
    → Known id pair d
    → Inv d
    → Evolves d d'
complete-Keeps now id attempts pair rate rate_date fetched_at d d' n e k v = record {
  inv = complete-Inv now id attempts pair rate rate_date fetched_at d d' n e k v;
  progress =
      Progress-trans d (close_task now id attempts d).1 d'
        (update-Progress (is_held id attempts) _ d
          (All-every _ d.tasks (λ r t. Moves-close now r (ground arith))))
        (insert_quote-Progress id pair rate rate_date fetched_at _ d' e);
}
