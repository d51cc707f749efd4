-- ===== src/Storage/Invariant/Claims.antt =====
-- The invariant under the statements of a worker and of the recovery pass.
use mathlib.Core.Bool.{false≢true}
use currency_quotes_service.Prelude.{
  In-any, ℕ, ◌<◌, ◌≡◌, sym, ◌∙◌, Bool, true, false, ◌&&◌, List, [], ◌∷◌, some, ltb, leb, Text, All,
  All-mono, All-every, In, Unique, All-any-false, Option-cases, inl, inr, arith,
}
use currency_quotes_service.Domain.Task.{is_pending}
use currency_quotes_service.Storage.Schema.{Row, Db, max_smallint}
use currency_quotes_service.Storage.Statements.{
  has_id, oldest_pending, claimed, is_held, fail_held, release_held, release_stale, abandon_stale,
  is_stale,
}
use currency_quotes_service.Storage.Rows.Moves.{Moves-claim, Moves-release, Moves-fail}
use currency_quotes_service.Storage.Invariant.{Inv, same_id}
use currency_quotes_service.Storage.Invariant.Updates.{Allowed, update-Inv}

pub release_held-Inv :
    (now id attempts : ℕ) (d : Db) → Inv d → Inv (release_held now id attempts d).1
release_held-Inv now id attempts d v =
    update-Inv (is_held id attempts) _ d
      (All-every _ d.tasks (λ r t. (Moves-release now r (ground arith), ground arith))) v

pub fail_held-Inv :
    (now id attempts c : ℕ) (reason : Text) (d : Db)
    → Inv d
    → Inv (fail_held now id attempts (c ∷ reason) d).1
fail_held-Inv now id attempts c reason d v =
    update-Inv (is_held id attempts) _ d
      (All-every _ d.tasks (λ r t. (Moves-fail now c reason r (ground arith), ground arith))) v

pub release_stale-Inv :
    (now older_than max_attempts : ℕ) (d : Db)
    → Inv d
    → Inv (release_stale now older_than max_attempts d).1
release_stale-Inv now older_than max_attempts d v =
    update-Inv (λ r. is_stale now older_than r && ltb r.attempts max_attempts) _ d
      (All-every _ d.tasks (λ r t. (Moves-release now r (ground arith), ground arith))) v

pub abandon_stale-Inv :
    (now older_than max_attempts c : ℕ) (reason : Text) (d : Db)
    → Inv d
    → Inv (abandon_stale now older_than max_attempts (c ∷ reason) d).1
abandon_stale-Inv now older_than max_attempts c reason d v =
    update-Inv (λ r. is_stale now older_than r && leb max_attempts r.attempts) _ d
      (All-every _ d.tasks (λ r t. (Moves-fail now c reason r (ground arith), ground arith))) v

-- Where identifiers are unique, a row is the only one with its identifier.
pub only_row :
    (r : Row) (rs : List Row)
    → Unique same_id rs
    → In r rs
    → All (λ s. has_id r.id s ≡ true → s ≡ r) rs
only_row r [] u m = tt
only_row r (s ∷ rs) u (inl e) = (
  λ _. e,
  All-mono (λ t. same_id s t ≡ false) (λ t. has_id r.id t ≡ true → t ≡ r) rs (λ t f h. ground arith)
      (All-any-false (same_id s) rs u.0),
)
only_row r (s ∷ rs) u (inr m) = (
  λ h. absurd (false≢true (sym u.0 ∙ In-any (same_id s) r rs m (ground arith))),
  only_row r rs u.1 m,
)

pub oldest_pending-In :
    (locked : ℕ → Bool) (rs : List Row) (r : Row)
    → oldest_pending locked rs ≡ some r
    → In r rs × (is_pending r.status ≡ true) × (locked r.id ≡ false)
unfolding oldest_pending
oldest_pending-In locked [] r e = cc
oldest_pending-In locked (s ∷ rs) r e = elim (Option-cases (oldest_pending locked rs)) [
  | inl nothing ↦ ground (arith, nothing)
  | inr (o, found) ↦ ground (arith, found, oldest_pending-In locked rs o found)
]

-- The claimed row is the one that was selected, and no other.
pub claimed-Allowed :
    (now : ℕ) (locked : ℕ → Bool) (d : Db) (r : Row)
    → Inv d
    → oldest_pending locked d.tasks ≡ some r
    → r.attempts < max_smallint
    → All (λ s. has_id r.id s ≡ true → Allowed (claimed now) s) d.tasks
claimed-Allowed now locked d r v e b =
    let (m, p, _) = oldest_pending-In locked d.tasks r e in
    All-mono (λ s. has_id r.id s ≡ true → s ≡ r)
      (λ s. has_id r.id s ≡ true → Allowed (claimed now) s) d.tasks
      (λ s same h. rw (same h) (Moves-claim now r p b, ground arith)) (only_row r d.tasks v.ids m)
