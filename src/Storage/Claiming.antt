-- ===== src/Storage/Claiming.antt =====
-- Laws of `ClaimTask` in internal/storage/postgres/repository.go: which task it takes from the queue,
-- and what a claim is worth later.
use currency_quotes_service.Prelude.{
  ℕ, ◌≤◌, ◌≡◌, refl, sym, ◌∙◌, inl, inr, Bool, true, false, ◌&&◌, not, List, [], ◌∷◌, Option, none,
  some, any, All, All-mono, All-any-false, All-In, Extends-In, ◌<◌, In, Option-cases, arith,
}
use currency_quotes_service.Domain.Errors.{ok}
use currency_quotes_service.Domain.Task.{UpdateTask, is_pending, is_in_progress}
use currency_quotes_service.Storage.Schema.{Row, Db, scan_task}
use currency_quotes_service.Storage.Statements.{
  has_id, update, oldest_pending, claimed, claim_oldest, is_held,
}
use currency_quotes_service.Storage.World.{World, turn}
use currency_quotes_service.Storage.World.Laws.{call-eq_ok}
use currency_quotes_service.Storage.Repository.{claim_task, claim_call}
use currency_quotes_service.Storage.Rows.{Later}
use currency_quotes_service.Storage.Invariant.{Inv}
use currency_quotes_service.Storage.Invariant.Claims.{oldest_pending-In, only_row}
use currency_quotes_service.Storage.Progress.{Progress}

-- A task that may be claimed now.
abbrev pub is_free : (ℕ → Bool) → Row → Bool
is_free locked r = is_pending r.status && not (locked r.id)

oldest_pending-none :
    (locked : ℕ → Bool) (rs : List Row)
    → oldest_pending locked rs ≡ none
    → any (is_free locked) rs ≡ false
unfolding oldest_pending any
oldest_pending-none locked [] e = refl
oldest_pending-none locked (s ∷ rs) e = ground (arith, oldest_pending-none locked rs)

oldest_pending-least :
    (locked : ℕ → Bool) (rs : List Row) (r : Row)
    → oldest_pending locked rs ≡ some r
    → All (λ s. is_free locked s ≡ true → r.created_at ≤ s.created_at) rs
unfolding oldest_pending
oldest_pending-least locked [] r e = tt
oldest_pending-least locked (s ∷ rs) r e = elim (Option-cases (oldest_pending locked rs)) [
  | inl nothing ↦ (
    ground (arith, nothing),
    All-mono (λ t. is_free locked t ≡ false)
        (λ t. is_free locked t ≡ true → r.created_at ≤ t.created_at) rs (λ t f h. ground arith)
        (All-any-false (is_free locked) rs (oldest_pending-none locked rs nothing)),
  )
  | inr (o, found) ↦ (
    ground (arith, found),
    All-mono (λ t. is_free locked t ≡ true → o.created_at ≤ t.created_at)
        (λ t. is_free locked t ≡ true → r.created_at ≤ t.created_at) rs
        (λ t h f. ground (arith, found, h f)) (oldest_pending-least locked rs o found),
  )
]

-- What a claim that was answered did to the tables `d` that it met, at the time `now`.
abbrev pub Claimed : ℕ → (ℕ → Bool) → Db → Option UpdateTask → Db → Type 0
Claimed now locked d none d' = (any (is_free locked) d.tasks ≡ false) × (d' ≡ d)
Claimed now locked d (some t) d' =
    (r : Row) × In r d.tasks
    × (is_free locked r ≡ true)
    × All (λ s. is_free locked s ≡ true → r.created_at ≤ s.created_at) d.tasks
    × (t ≡ scan_task (claimed now r))
    × (d' ≡ (update (has_id r.id) (claimed now) d).1)

pub claim_oldest-Claimed :
    (now : ℕ) (locked : ℕ → Bool) (d d' : Db) (t : Option UpdateTask)
    → claim_oldest now locked d ≡ some (t, d')
    → Claimed now locked d t d'
unfolding claim_oldest
claim_oldest-Claimed now locked d d' none e = elim (Option-cases (oldest_pending locked d.tasks)) [
  | inl nothing ↦ (oldest_pending-none locked d.tasks nothing, ground (arith, nothing))
  | inr (r, found) ↦ ground (arith, found)
]
claim_oldest-Claimed now locked d d' (some t) e =
    elim (Option-cases (oldest_pending locked d.tasks)) [
      | inl nothing ↦ ground (arith, nothing)
      | inr (r, found) ↦
          let (m, p, f) = oldest_pending-In locked d.tasks r found in
          (
            r,
            m,
            ground arith,
            oldest_pending-least locked d.tasks r found,
            ground (arith, found),
            ground (arith, found),
          )
    ]

-- A claim that is answered takes the oldest of the pending tasks that no other transaction has
-- locked, counts one more attempt, and changes no other row; it answers with no task only when there
-- is none to take, and then changes nothing.
pub claim_task-Claimed :
    (w w' : World) (t : Option UpdateTask)
    → claim_task w ≡ (ok t, w')
    → Claimed (turn w).now (turn w).locked ((turn w).others w.db) t w'.db
unfolding claim_task
claim_task-Claimed w w' t e =
    claim_oldest-Claimed (turn w).now (turn w).locked ((turn w).others w.db) w'.db t
      (call-eq_ok claim_call w t w' e)

-- A task that is held under a token, and is found held under the same token after the tables have
-- moved forward to some that keep the invariant, is unchanged.
pub held_unchanged :
    (d d' : Db) (id attempts : ℕ) (r r' : Row)
    → Inv d'
    → Progress d d'
    → In r d.tasks
    → In r' d'.tasks
    → is_held id attempts r ≡ true
    → is_held id attempts r' ≡ true
    → r' ≡ r
held_unchanged d d' id attempts r r' v p m m' h h' =
    let (s, ms, l) = Extends-In Later d.tasks d'.tasks r p.tasks m in
    let same : s ≡ r' =
      All-In (λ x. has_id r'.id x ≡ true → x ≡ r') d'.tasks s (only_row r' d'.tasks v.ids m') ms
        (ground (arith, l.same_id)) in
    sym same ∙ l.level (ground (arith, same))

token_below :
    (r s q : Row) (now : ℕ) (t : UpdateTask)
    → Later r s
    → s ≡ q
    → t ≡ scan_task (claimed now q)
    → is_in_progress r.status ≡ true
    → is_pending q.status ≡ true
    → r.attempts < t.attempts
token_below r s q now t l e a h f = ground (arith, l.ranked)

-- A task that was in progress in tables `d`, and that a claim is answered with after they have moved
-- forward to tables that keep the invariant, is claimed under a greater number of attempts.
pub claim_tokens_grow :
    (w w' : World) (d : Db) (r : Row) (t : UpdateTask)
    → Inv ((turn w).others w.db)
    → Progress d ((turn w).others w.db)
    → In r d.tasks
    → is_in_progress r.status ≡ true
    → claim_task w ≡ (ok (some t), w')
    → t.id ≡ r.id
    → r.attempts < t.attempts
claim_tokens_grow w w' d r t v p m h e same =
    let (q, mq, free, _, answer, _) = claim_task-Claimed w w' (some t) e in
    let (s, ms, l) = Extends-In Later d.tasks ((turn w).others w.db).tasks r p.tasks m in
    let only : s ≡ q =
      All-In (λ x. has_id q.id x ≡ true → x ≡ q) ((turn w).others w.db).tasks s
        (only_row q ((turn w).others w.db).tasks v.ids mq) ms (ground (arith, l.same_id)) in
    token_below r s q (turn w).now t l only answer h (ground arith)
