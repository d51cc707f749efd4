-- ===== src/System/Safety.antt =====
-- What no interleaving of the processes of main.go does: give out one claim twice, or complete a task
-- twice.
use mathlib.Core.Bool.{false≢true}
use currency_quotes_service.Prelude.{
  ℕ, ◌<◌, ◌≡◌, sym, ap, subst, ◌∙◌, inl, inr, true, false, [], ◌∷◌, Option, some, Text, any, any-In,
  any-Extends, any-append, arith,
}
use currency_quotes_service.Domain.Errors.{ok}
use currency_quotes_service.Domain.Task.{UpdateTask}
use currency_quotes_service.Storage.Schema.{QuoteRow, Db}
use currency_quotes_service.Storage.Statements.{is_held, of_update, update, insert_quote, new_quote}
use currency_quotes_service.Storage.World.{World, turn}
use currency_quotes_service.Storage.World.Laws.{call-eq_ok}
use currency_quotes_service.Storage.Repository.{Decimals, claim_task, claim_call, complete_task}
use currency_quotes_service.Storage.Invariant.{Inv}
use currency_quotes_service.Storage.Invariant.Completion.{insert_quote-some}
use currency_quotes_service.Storage.Finalising.{IsOk, complete_task-atomic}
use currency_quotes_service.Storage.Claiming.{claim_tokens_grow}
use currency_quotes_service.Storage.Guarantee.Statements.{Holds, claim_oldest-Keeps}
use currency_quotes_service.System.{Reach}
use currency_quotes_service.System.Steps.{Reach-Evolves, Keeps-some}

-- Two claims of one task that are both answered carry different numbers of attempts, the later the
-- greater, after any steps of the service between them, from tables that keep the invariant.
pub claims_apart :
    (w w' v v' : World) (t t' : UpdateTask)
    → Inv ((turn w).others w.db)
    → claim_task w ≡ (ok (some t), w')
    → Reach w'.db ((turn v).others v.db)
    → claim_task v ≡ (ok (some t'), v')
    → t'.id ≡ t.id
    → t.attempts < t'.attempts
unfolding claim_task
claims_apart w w' v v' t t' inv e reach k same =
    let d = (turn w).others w.db in
    let (evolved, (known, held)) =
      Keeps-some _ d w'.db (some t) Holds (claim_oldest-Keeps (turn w).now (turn w).locked d inv)
        (call-eq_ok claim_call w (some t) w' e) in
    let later = Reach-Evolves reach evolved.inv in
    let (r, m, own) = any-In (is_held t.id t.attempts) w'.db.tasks held in
    let grown =
      claim_tokens_grow v v' w'.db r t' later.inv later.progress m (ground arith) k
        (ground arith) in
    ground arith

stored_quote :
    (id : ℕ) (pair : Text) (rate : Option ℕ) (rate_date fetched_at : ℕ) (d d' : Db)
    → insert_quote id pair rate rate_date fetched_at d ≡ some d'
    → (any (of_update id) d.quotes ≡ false) × (any (of_update id) d'.quotes ≡ true)
unfolding any
stored_quote id pair rate rate_date fetched_at d d' e =
    let (n, _, _, fresh, same) = insert_quote-some id pair rate rate_date fetched_at d d' e in
    (
      fresh,
      ground (
        arith,
        same,
        any-append (of_update id) d.quotes (new_quote id pair rate_date fetched_at n ∷ []),
      ),
    )

module _ (decimals : Decimals) (rate rate' : decimals.Decimal)
    (rate_date fetched_at rate_date' fetched_at' : ℕ) where
  -- Once CompleteTask has been answered without an error, no later one for the task is, under any
  -- claim, and none changes the tables, after any steps of the service, from tables that keep the
  -- invariant.
  pub completed_once :
      (claim claim' : UpdateTask) (w w' v : World)
      → Inv w'.db
      → complete_task decimals claim rate rate_date fetched_at w ≡ (ok tt, w')
      → Reach w'.db ((turn v).others v.db)
      → claim'.id ≡ claim.id
      → let r = complete_task decimals claim' rate' rate_date' fetched_at' v in
        (r.1.db ≡ (turn v).others v.db) × (¬ IsOk r.0)
  unfolding update
  completed_once claim claim' w w' v inv e reach same =
      let first = complete_task decimals claim rate rate_date fetched_at w in
      elim (complete_task-atomic decimals claim rate rate_date fetched_at w) [
        | inl h ↦ absurd (h.1 (subst (λ x. IsOk x.0) (sym e) tt))
        | inr h ↦ elim (complete_task-atomic decimals claim' rate' rate_date' fetched_at' v) [
          | inl h' ↦ h'
          | inr h' ↦
              let stored =
                stored_quote claim.id claim.pair (decimals.to_numeric rate) rate_date fetched_at _
                  first.1.db h.1 in
              let again =
                stored_quote claim'.id claim'.pair (decimals.to_numeric rate') rate_date'
                  fetched_at' _ _ h'.1 in
              let kept =
                any-Extends (of_update claim.id) (λ (p q : QuoteRow). q ≡ p) w'.db.quotes
                  ((turn v).others v.db).quotes (λ x y s m. ap (of_update claim.id) s ∙ m)
                  (Reach-Evolves reach inv).progress.quotes
                  (subst (λ x. any (of_update claim.id) x.1.db.quotes ≡ true) e stored.1) in
              absurd (
                false≢true (
                  sym again.0
                  ∙ ap (λ n. any (of_update n) ((turn v).others v.db).quotes) same
                  ∙ kept))
        ]
      ]
