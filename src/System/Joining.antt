-- ===== src/System/Joining.antt =====
-- Posts without a key over time: a pair that has an unfinished update is not given another.
use mathlib.Core.Bool.{false≢true}
use currency_quotes_service.Prelude.{
  ℕ, ◌≡◌, sym, subst, ◌∙◌, inl, inr, true, ◌&&◌, none, some, Text, text_eq_iff, any, In-any, any-In,
  Unique-same, find?, find?-some, find?-none, find?-In, Option-cases, arith,
}
use currency_quotes_service.Domain.Errors.{ok}
use currency_quotes_service.Domain.Task.{UpdateTask}
use currency_quotes_service.Storage.Schema.{Db, is_unfinished}
use currency_quotes_service.Storage.Statements.{has_id, occupies, insert_task}
use currency_quotes_service.Storage.World.{World, turn}
use currency_quotes_service.Storage.World.Laws.{call-eq_ok}
use currency_quotes_service.Storage.Repository.{create_task, insert_call}
use currency_quotes_service.Storage.Invariant.{Inv, Known, is_task, rivals, same_id}
use currency_quotes_service.Storage.Progress.{Known-Progress}
use currency_quotes_service.Storage.Guarantee.{After}
use currency_quotes_service.Storage.Guarantee.Creation.{Answers, create_task-Safe}
use currency_quotes_service.System.{Reach}
use currency_quotes_service.System.Steps.{Reach-Evolves}
use currency_quotes_service.System.Acts.{Among, Among-Rely, Acts, Acts-Inv}
use currency_quotes_service.System.Posting.{create_task-Acts}

-- The update waits or runs.
abbrev pub IsOpen : ℕ → Db → Type 0
IsOpen id d = any (λ r. has_id id r && is_unfinished r.status) d.tasks ≡ true

-- A post of a pair whose update is open is answered with that update.
insert_task-open :
    (now fresh id : ℕ) (pair : Text) (d d' : Db) (t : UpdateTask)
    → Inv d
    → Known id pair d
    → IsOpen id d
    → insert_task now fresh pair d ≡ some (t, d')
    → t.id ≡ id
unfolding insert_task
insert_task-open now fresh id pair d d' t v known unfinished e =
    let (r, m, own) = any-In (is_task id pair) d.tasks known in
    let (s, n, runs) = any-In (λ r. has_id id r && is_unfinished r.status) d.tasks unfinished in
    let same : r ≡ s = Unique-same same_id d.tasks r s v.ids m n (ground arith) (ground arith) in
    let holds : occupies pair r ≡ true = ground (arith, same) in
    elim (Option-cases (find? (occupies pair) d.tasks)) [
      | inl free ↦ absurd (
          false≢true (
            sym (find?-none (occupies pair) d.tasks free)
            ∙ In-any (occupies pair) r d.tasks m holds))
      | inr (x, found) ↦
          let hit = find?-some (occupies pair) d.tasks x found in
          let one : x ≡ r =
            Unique-same rivals d.tasks x r v.one_unfinished
              (find?-In (occupies pair) d.tasks x found) m
              (ground (
                arith,
                text_eq_iff x.pair pair,
                text_eq_iff r.pair pair,
                text_eq_iff r.pair x.pair,
              ))
              (ground (
                arith,
                text_eq_iff x.pair pair,
                text_eq_iff r.pair pair,
                text_eq_iff x.pair r.pair,
              )) in
          ground (arith, found, one)
    ]

-- Two posts of one pair without a key that are both answered are answered with the same update, as long
-- as that is neither done nor failed when the second comes, after any steps of the service between them,
-- from tables that keep the invariant and where others do steps of the service.
pub create_task-joined :
    (ttl : ℕ) (pair : Text) (w w' v v' : World) (t t' : UpdateTask)
    → Among w.script
    → Inv w.db
    → create_task ttl pair none w ≡ (ok t, w')
    → Reach w'.db ((turn v).others v.db)
    → IsOpen t.id ((turn v).others v.db)
    → create_task ttl pair none v ≡ (ok t', v')
    → t'.id ≡ t.id
unfolding create_task
create_task-joined ttl pair w w' v v' t t' among inv e reach unfinished f =
    let safe = create_task-Safe w ttl pair none (Among-Rely w.script among) inv in
    let known : Answers pair t w'.db = subst (λ x. After x (λ t w. Answers pair t w.db)) e safe.1 in
    let left =
      Acts-Inv w w' (subst (λ x. Acts w x.1) e (create_task-Acts w ttl pair none among)) inv in
    let later = Reach-Evolves reach left in
    insert_task-open (turn v).now (turn v).fresh t.id pair ((turn v).others v.db) v'.db t' later.inv
      (Known-Progress t.id pair w'.db ((turn v).others v.db) later.progress known.0) unfinished
      (call-eq_ok (insert_call pair) v t' v' f)
