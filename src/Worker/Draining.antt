-- ===== src/Worker/Draining.antt =====
-- The queue of internal/storage/postgres under the statements of a worker: how many tasks wait.
pub mod Methods
pub mod Rounds
use currency_quotes_service.Prelude.{
  ℕ, suc, ◌-◌, ◌≤◌, ◌<◌, ◌≡◌, refl, sym, ap, subst, ◌∙◌, ◌⊎◌, inl, inr, Bool, true, false, List, [],
  ◌∷◌, map, Option, none, some, Text, count_if, any, In, All, All-mono, All-every, All-map,
  All-both, Option-cases, Bool-cases, arith, ltb,
}
use currency_quotes_service.Domain.Errors.{Error, Result, ok, err, is, stale_claim}
use currency_quotes_service.Domain.Task.{
  UpdateTask, Status, pending, in_progress, done, failed, is_pending,
}
use currency_quotes_service.Storage.Schema.{Row, Db, max_smallint, scan_task}
use currency_quotes_service.Storage.Statements.{
  has_id, is_held, touch, update, oldest_pending, claimed, claim_oldest, close_task, fail_held,
  insert_quote,
}
use currency_quotes_service.Storage.World.{
  World, Turn, Fate, answered, turn, begin, query, commit, execute,
}
use currency_quotes_service.Storage.Repository.{Decimals, claim_task, complete_task, fail_task}
use currency_quotes_service.Storage.Invariant.Claims.{oldest_pending-In}
use currency_quotes_service.Storage.Invariant.Completion.{insert_quote-some}
use currency_quotes_service.Storage.Claiming.{is_free}
use currency_quotes_service.Storage.Finalising.{complete_task-atomic}
use currency_quotes_service.Provider.{Rate}
use currency_quotes_service.Worker.{
  Observed, Ctx, live, stopped, expired, is_stopped, Op, complete, fail, finalisation_failed,
  after_fail, fail_claim, after_complete, finish, after_fetch, process, process_claim,
  claim_and_process,
}
use currency_quotes_service.Worker.Reasons.{failure_reason}
use currency_quotes_service.Worker.Guarantee.{storage}
use currency_quotes_service.Worker.Loop.{Round, Reports, round, run}

-- A test that passes nowhere new after a change of every element.
module _ {A : Type 0} (p : A → Bool) (g : A → A)
    (keeps : (x : A) → p (g x) ≡ true → p x ≡ true) where
  count_if-map_le : (xs : List A) → count_if p (map g xs) ≤ count_if p xs
  unfolding count_if
  count_if-map_le [] = omega arith
  count_if-map_le (x ∷ xs) = ground (arith, keeps x, count_if-map_le xs)

  count_if-map_lt :
      (x : A) (xs : List A)
      → In x xs
      → p x ≡ true
      → p (g x) ≡ false
      → count_if p (map g xs) < count_if p xs
  unfolding count_if
  count_if-map_lt x [] m h k = elim m [ ]
  count_if-map_lt x (y ∷ xs) (inl e) h k = ground (arith, e, count_if-map_le xs)
  count_if-map_lt x (y ∷ xs) (inr m) h k = ground (arith, keeps y, count_if-map_lt x xs m h k)

abbrev pub is_waiting : Row → Bool
is_waiting r = is_pending r.status

-- The number of pending tasks.
abbrev pub waiting : Db → ℕ
waiting d = count_if is_waiting d.tasks

-- No pending task has used up its smallint.
abbrev pub Room : Db → Type 0
Room d = All (λ r. is_pending r.status ≡ true → r.attempts < max_smallint) d.tasks

-- Nobody else changes or locks anything, and every call is answered.
pub record Quiet (script : ℕ → Turn) : Type 0 where
  pub alone : (n : ℕ) (d : Db) → (script n).others d ≡ d
  pub heard : (n : ℕ) → (script n).fate ≡ answered
  pub unlocked : (n id : ℕ) → (script n).locked id ≡ false

pub record Drains (d d' : Db) : Type 0 where
  pub fewer : waiting d' ≤ waiting d
  pub room : Room d → Room d'

pub Drains-refl : (d : Db) → Drains d d
Drains-refl d = record { fewer = omega arith; room = λ h. h }

pub Drains-trans : (d d' d'' : Db) → Drains d d' → Drains d' d'' → Drains d d''
Drains-trans d d' d'' h k = record {
  fewer = omega (arith, h.fewer, k.fewer);
  room = λ r. k.room (h.room r);
}

-- An UPDATE that leaves no row pending.
module _ (test : Row → Bool) (set : Row → Row)
    (ends : (r : Row) → is_pending (set r).status ≡ false) where
  touch-waiting : (r : Row) → is_waiting (touch test set r) ≡ true → is_waiting r ≡ true
  touch-waiting r h = ground (arith, ends r)

  touch-room :
      (r : Row)
      → (is_pending r.status ≡ true → r.attempts < max_smallint)
      → is_pending (touch test set r).status ≡ true
      → (touch test set r).attempts < max_smallint
  touch-room r h k = ground (arith, ends r, h)

  pub update-Drains : (d : Db) → Drains d (update test set d).1
  unfolding update
  update-Drains d = record {
    fewer = count_if-map_le is_waiting (touch test set) touch-waiting d.tasks;
    room = λ h. All-map _ (touch test set) d.tasks (All-mono _ _ d.tasks touch-room h);
  }

  pub update-fewer :
      (d : Db) (r : Row)
      → In r d.tasks
      → is_pending r.status ≡ true
      → test r ≡ true
      → waiting (update test set d).1 < waiting d
  unfolding update
  update-fewer d r m h t =
      count_if-map_lt is_waiting (touch test set) touch-waiting r d.tasks m h
        (ground (arith, ends r))
