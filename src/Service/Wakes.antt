-- ===== src/Service/Wakes.antt =====
-- The signal of internal/service/service.go that a task waits, and the service over the repository of
-- internal/storage/postgres.
use currency_quotes_service.Prelude.{
  ℕ, ◌≡◌, refl, sym, subst, Bool, false, ◌||◌, List, [], ◌∷◌, Option, Text, any, arith,
}
use currency_quotes_service.Domain.Errors.{Result, ok, err}
use currency_quotes_service.Domain.Task.{UpdateTask, is_pending}
use currency_quotes_service.Storage.World.{World}
use currency_quotes_service.Storage.Repository as Postgres
use currency_quotes_service.Storage.Repository.{Decimals}
use currency_quotes_service.Storage.Invariant.{Inv}
use currency_quotes_service.Storage.Guarantee.{Rely, Good, Good-refl, Good-trans}
use currency_quotes_service.Storage.Guarantee.Creation.{create_task-Safe}
use currency_quotes_service.Service.{Repository, State, notify, create_task}

-- The answer to a post is a task that waits for a worker.
abbrev pub answers_pending : Result UpdateTask → Bool
answers_pending (ok task) = is_pending task.status
answers_pending (err e) = false

module _ {S Decimal : Type 0} (repo : Repository S Decimal) where
  -- Posts one after the other, with their answers.
  abbrev pub posts : List (Text × Option ℕ) → State S → List (Result UpdateTask) × State S
  posts [] s = ([], s)
  posts ((pair, key) ∷ ps) s =
      let (answer, s') = create_task repo pair key s in
      let (answers, s'') = posts ps s' in (answer ∷ answers, s'')

  create_task-wake :
      (pair : Text) (key : Option ℕ) (s : State S)
      → let r = create_task repo pair key s in r.1.wake ≡ (answers_pending r.0 || s.wake)
  unfolding create_task notify
  create_task-wake pair key s = ground arith

  pub create_task-answer :
      (pair : Text) (key : Option ℕ) (s : State S)
      → (create_task repo pair key s).0 ≡ (repo.create_task pair key s.store).0
  unfolding create_task
  create_task-answer pair key s = ground arith

  pub create_task-store :
      (pair : Text) (key : Option ℕ) (s : State S)
      → (create_task repo pair key s).1.store ≡ (repo.create_task pair key s.store).1
  unfolding create_task
  create_task-store pair key s = ground arith

  -- After any posts, with no worker between them, the channel holds a signal exactly when it held
  -- one before or one of the posts was answered with a pending task.
  pub posts-wake :
      (ps : List (Text × Option ℕ)) (s : State S)
      → let r = posts ps s in r.1.wake ≡ (any answers_pending r.0 || s.wake)
  unfolding any
  posts-wake [] s = refl
  posts-wake ((pair, key) ∷ ps) s =
      ground (arith, create_task-wake pair key s, posts-wake ps (create_task repo pair key s).1)

-- The repository of the storage package, as main.go hands it to the service.
abbrev pub stored : (decimals : Decimals) → ℕ → Repository World decimals.Decimal
stored decimals ttl = record {
  create_task = Postgres.create_task ttl;
  get_task = Postgres.get_task decimals;
  get_latest_quote = Postgres.get_latest_quote decimals;
}

module _ (decimals : Decimals) (ttl : ℕ) where
  -- Posts one after the other keep the invariant of the tables and move them forward only, from
  -- tables that keep the invariant and as long as whatever others commit does so too.
  pub posts-Good :
      (ps : List (Text × Option ℕ)) (s : State World)
      → Rely s.store.script
      → Inv s.store.db
      → Good s.store (posts (stored decimals ttl) ps s).1.store
  posts-Good [] s rely v = Good-refl s.store v
  posts-Good ((pair, key) ∷ ps) s rely v =
      let kept : Good s.store (create_task (stored decimals ttl) pair key s).1.store =
        subst (Good s.store) (sym (create_task-store (stored decimals ttl) pair key s))
          (create_task-Safe s.store ttl pair key rely v).0 in
      Good-trans s.store _ _ kept (
        posts-Good ps (create_task (stored decimals ttl) pair key s).1
          (subst Rely (sym kept.script) rely) kept.evolves.inv)
