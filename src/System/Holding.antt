-- ===== src/System/Holding.antt =====
-- How long a claim of internal/worker lasts: which steps of the other processes leave it to the worker
-- that holds it.
pub mod Margin
use currency_quotes_service.Prelude.{
  ℕ, ◌+◌, ◌≤◌, ◌≡◌, refl, sym, ap, subst, ◌∙◌, ◌⊎◌, inl, inr, true, false, List, [], ◌∷◌, ◌++◌, map,
  Option, none, some, any, any-In, In-any, any-map, any-append_true, find?, Bool-cases, All-In, In,
  Bool, ◌&&◌, leb, Text, Option-cases, arith,
}
use currency_quotes_service.Domain.Task.{UpdateTask}
use currency_quotes_service.Storage.Schema.{Row, Db}
use currency_quotes_service.Storage.Statements.{
  has_id, touch, update, occupies, new_row, insert_task, bind_key, claimed, claim_oldest, is_held,
  close_task, insert_quote, is_stale,
}
use currency_quotes_service.Storage.Invariant.{Inv}
use currency_quotes_service.Storage.Invariant.Claims.{only_row}
use currency_quotes_service.Storage.Invariant.Completion.{insert_quote-some}
use currency_quotes_service.Storage.Claiming.{is_free, claim_oldest-Claimed}
use currency_quotes_service.Storage.Recovering.{recover, recovered}
use currency_quotes_service.System.{
  Step, posts, posts_bound, takes, completes, fails, releases, recovers,
}
use currency_quotes_service.System.Steps.{Step-Evolves}

-- The task is held under the token, claimed no earlier than the time `since`.
abbrev pub is_running : ℕ → ℕ → ℕ → Row → Bool
is_running id attempts since r = is_held id attempts r && leb since r.updated_at

-- Steps that finalise other claims only, and recovery passes with one threshold until a time.
module _ (id attempts threshold until : ℕ) where
  abbrev pub Spares : {d d' : Db} → Step d d' → Type 0
  Spares (posts _ _ _ _ _) = Unit
  Spares (posts_bound _ _ _ _ _ _ _ _ _) = Unit
  Spares (takes _ _ _ _) = Unit
  Spares (completes _ id' attempts' _ _ _ _ _ _ _) = ¬ ((id' ≡ id) × (attempts' ≡ attempts))
  Spares (fails _ id' attempts' _ _ _) = ¬ ((id' ≡ id) × (attempts' ≡ attempts))
  Spares (releases _ id' attempts' _) = ¬ ((id' ≡ id) × (attempts' ≡ attempts))
  Spares (recovers now older_than _ _ _ _) = (older_than ≡ threshold) × (now ≤ until)

  pub data Spared (d : Db) : Db → Type 0 where
    still : Spared d d
    onward : {m d' : Db} → Spared d m → (s : Step m d') → Spares s → Spared d d'

module _ (id attempts since : ℕ) where
  abbrev pub Running : Db → Type 0
  Running d = any (is_running id attempts since) d.tasks ≡ true

  update-Running :
      (test : Row → Bool) (set : Row → Row) (d : Db)
      → ((r : Row) → In r d.tasks → is_running id attempts since r ≡ true → test r ≡ false)
      → Running d
      → Running (update test set d).1
  unfolding update
  update-Running test set d k h =
      let (r, m, own) = any-In (is_running id attempts since) d.tasks h in
      any-map (is_running id attempts since) (touch test set) d.tasks
      ∙ In-any (λ x. is_running id attempts since (touch test set x)) r d.tasks m
          (ground (arith, k r m own))

  insert_task-Running :
      (now fresh : ℕ) (pair : Text) (d d' : Db) (t : UpdateTask)
      → insert_task now fresh pair d ≡ some (t, d')
      → Running d
      → Running d'
  unfolding insert_task
  insert_task-Running now fresh pair d d' t e h =
      elim (Option-cases (find? (occupies pair) d.tasks)) [
        | inl free ↦ ground (
          arith,
          free,
          any-append_true (is_running id attempts since) d.tasks (new_row now fresh pair ∷ []) h,
        )
        | inr (r, found) ↦ ground (arith, found)
      ]

  bind_key-Running :
      (now ttl key n : ℕ) (d d' : Db) (b : Bool)
      → bind_key now ttl key n d ≡ some (b, d')
      → Running d
      → Running d'
  unfolding bind_key
  bind_key-Running now ttl key n d d' b e h = ground arith

  clash :
      (r s : Row) (locked : ℕ → Bool)
      → is_free locked r ≡ true
      → is_running id attempts since s ≡ true
      → s ≡ r
      → ⊥
  clash r s locked free own e = ground (arith, ap (λ (x : Row). x.status) e)

  -- A row that may be claimed is not a row that is running.
  other :
      (r s : Row) (locked : ℕ → Bool)
      → is_free locked r ≡ true
      → (has_id r.id s ≡ true → s ≡ r)
      → is_running id attempts since s ≡ true
      → has_id r.id s ≡ false
  other r s locked free k own = elim (Bool-cases (has_id r.id s)) [
    | inl same ↦ absurd (clash r s locked free own (k same))
    | inr apart ↦ apart
  ]

  claim_oldest-Running :
      (now : ℕ) (locked : ℕ → Bool) (d d' : Db) (t : UpdateTask)
      → Inv d
      → claim_oldest now locked d ≡ some (some t, d')
      → Running d
      → Running d'
  claim_oldest-Running now locked d d' t v e h =
      let (r, m, free, _, _, same) = claim_oldest-Claimed now locked d d' (some t) e in
      rw same (
        update-Running (has_id r.id) (claimed now) d
          (λ s ms own.
            other r s locked free
              (All-In (λ x. has_id r.id x ≡ true → x ≡ r) d.tasks s (only_row r d.tasks v.ids m) ms)
              own)
          h)

  apart :
      (r : Row) (id' attempts' : ℕ)
      → ¬ ((id' ≡ id) × (attempts' ≡ attempts))
      → is_running id attempts since r ≡ true
      → is_held id' attempts' r ≡ false
  apart r id' attempts' k own = ground arith

  complete-Running :
      (now id' attempts' : ℕ) (pair : Text) (rate : Option ℕ) (rate_date fetched_at : ℕ) (d d' : Db)
      → ¬ ((id' ≡ id) × (attempts' ≡ attempts))
      → insert_quote id' pair rate rate_date fetched_at (close_task now id' attempts' d).1 ≡ some d'
      → Running d
      → Running d'
  complete-Running now id' attempts' pair rate rate_date fetched_at d d' k e h =
      let (_, _, _, _, same) =
        insert_quote-some id' pair rate rate_date fetched_at (close_task now id' attempts' d).1 d'
          e in
      rw same
        (update-Running (is_held id' attempts') _ d (λ r m own. apart r id' attempts' k own) h)

  recovered-Running :
      (now older_than max_attempts : ℕ) (reason : Text) (d : Db)
      → now ≤ since + older_than
      → Running d
      → Running (recovered now older_than max_attempts reason d)
  recovered-Running now older_than max_attempts reason d b h =
      let (r, m, own) = any-In (is_running id attempts since) d.tasks h in
      any-map (is_running id attempts since) (recover now older_than max_attempts reason) d.tasks
      ∙ In-any (λ x. is_running id attempts since (recover now older_than max_attempts reason x)) r
          d.tasks m (ground arith)

  module _ (threshold until : ℕ) (margin : until ≤ since + threshold) where
    Step-Running :
        (d d' : Db) (s : Step d d')
        → Spares id attempts threshold until s
        → Inv d
        → Running d
        → Running d'
    Step-Running d d' (posts now fresh pair t e) k v h =
        insert_task-Running now fresh pair d d' t e h
    Step-Running d d' (posts_bound now fresh ttl key pair t m e b) k v h =
        bind_key-Running now ttl key t.id m d' true b (insert_task-Running now fresh pair d m t e h)
    Step-Running d d' (takes now locked t e) k v h = claim_oldest-Running now locked d d' t v e h
    Step-Running d d' (completes now id' attempts' pair rate rate_date fetched_at _ _ e) k v h =
        complete-Running now id' attempts' pair rate rate_date fetched_at d d' k e h
    Step-Running d d' (fails now id' attempts' c reason e) k v h =
        rw e (update-Running (is_held id' attempts') _ d (λ r m own. apart r id' attempts' k own) h)
    Step-Running d d' (releases now id' attempts' e) k v h =
        rw e (update-Running (is_held id' attempts') _ d (λ r m own. apart r id' attempts' k own) h)
    Step-Running d d' (recovers now older_than max_attempts c reason e) k v h =
        rw e (recovered-Running now older_than max_attempts (c ∷ reason) d (omega arith) h)

    pub Spared-Running :
        {d d' : Db}
        → Spared id attempts threshold until d d'
        → Inv d
        → Running d
        → Inv d' × Running d'
    Spared-Running still v h = (v, h)
    Spared-Running {d} {d'} (onward {m} r s k) v h =
        let (inv, held) = Spared-Running r v h in
        ((Step-Evolves m d' s inv).inv, Step-Running m d' s k inv held)
