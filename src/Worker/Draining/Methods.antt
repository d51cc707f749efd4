-- ===== src/Worker/Draining/Methods.antt =====
-- The methods of internal/storage/postgres/repository.go that finalise a task: no more tasks wait after
-- them.
use currency_quotes_service.Prelude.{
  ℕ, ◌≡◌, refl, ap, subst, ◌∙◌, ◌⊎◌, inl, inr, [], ◌∷◌, Text, arith,
}
use currency_quotes_service.Domain.Task.{UpdateTask}
use currency_quotes_service.Storage.Schema.{Db}
use currency_quotes_service.Storage.Statements.{is_held, close_task, fail_held}
use currency_quotes_service.Storage.World.{World, turn, begin, query, commit, execute}
use currency_quotes_service.Storage.Repository.{Decimals, complete_task, fail_task}
use currency_quotes_service.Storage.Invariant.Completion.{insert_quote-some}
use currency_quotes_service.Storage.Finalising.{complete_task-atomic}
use currency_quotes_service.Worker.Draining.{
  Quiet, Drains, Drains-refl, Drains-trans, update-Drains,
}

-- The world after a worker: no more tasks wait, and the script is the same.
pub record Works (w w' : World) : Type 0 where
  pub drained : Drains w.db w'.db
  pub script : w'.script ≡ w.script

pub Works-refl : (w : World) → Works w w
Works-refl w = record { drained = Drains-refl w.db; script = refl }

pub Works-trans : (w w' w'' : World) → Works w w' → Works w' w'' → Works w w''
Works-trans w w' w'' h k = record {
  drained = Drains-trans w.db w'.db w''.db h.drained k.drained;
  script = k.script ∙ h.script;
}

Drains-eq : (d d' : Db) → d' ≡ d → Drains d d'
Drains-eq d d' e = rw e (Drains-refl d)

-- A statement on quotes alone.
Drains-tasks : (d d' d'' : Db) → d''.tasks ≡ d'.tasks → Drains d d' → Drains d d''
Drains-tasks d d' d'' e h = record { fewer = rw e h.fewer; room = λ r. rw e (h.room r) }

module _ (decimals : Decimals) (claim : UpdateTask) (w : World) (q : Quiet w.script) where
  complete_task-script :
      (rate : decimals.Decimal) (rate_date fetched_at : ℕ)
      → (complete_task decimals claim rate rate_date fetched_at w).1.script ≡ w.script
  unfolding complete_task begin query commit execute
  complete_task-script rate rate_date fetched_at = ground arith

  pub complete_task-Works :
      (rate : decimals.Decimal) (rate_date fetched_at : ℕ)
      → Works w (complete_task decimals claim rate rate_date fetched_at w).1
  complete_task-Works rate rate_date fetched_at =
      let w' = (complete_task decimals claim rate rate_date fetched_at w).1 in
      let same = q.alone w.at w.db in
      record {
        drained = elim (complete_task-atomic decimals claim rate rate_date fetched_at w) [
          | inl h ↦ Drains-eq w.db w'.db (h.0 ∙ same)
          | inr h ↦
              let d = (turn w).others w.db in
              let closed = (close_task (turn w).now claim.id claim.attempts d).1 in
              let (n, _, _, _, shape) =
                insert_quote-some claim.id claim.pair (decimals.to_numeric rate) rate_date
                  fetched_at closed w'.db h.1 in
              subst (λ x. Drains x w'.db) same
                (Drains-tasks d closed w'.db (ap (λ x. x.tasks) shape)
                  (update-Drains (is_held claim.id claim.attempts) _ (λ r. refl) d))
        ];
        script = complete_task-script rate rate_date fetched_at;
      }

  fail_task-outcome :
      (c : ℕ) (reason : Text)
      → let d = (turn w).others w.db in
        let w' = (fail_task claim (c ∷ reason) w).1 in
        (w'.script ≡ w.script)
        × ((w'.db ≡ d)
            ⊎ (w'.db ≡ (fail_held (turn w).now claim.id claim.attempts (c ∷ reason) d).1))
  unfolding fail_task execute
  fail_task-outcome c reason = ground arith

  pub fail_task-Works : (reason : Text) → Works w (fail_task claim reason w).1
  unfolding fail_task
  fail_task-Works [] = Works-refl w
  fail_task-Works (c ∷ reason) =
      let w' = (fail_task claim (c ∷ reason) w).1 in
      let same = q.alone w.at w.db in
      let (script, wrote) = fail_task-outcome c reason in
      record {
        drained = elim wrote [
          | inl h ↦ Drains-eq w.db w'.db (h ∙ same)
          | inr h ↦
              subst (λ x. Drains x w'.db) same
                (rw h (
                  update-Drains (is_held claim.id claim.attempts) _ (λ r. refl)
                    ((turn w).others w.db)))
        ];
        script = script;
      }
