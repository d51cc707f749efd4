-- ===== src/Storage/Guarantee/Steps.antt =====
-- The calls as the methods make them: with their errors wrapped, alone or in a transaction.
use currency_quotes_service.Prelude.{ℕ, ◌≡◌, ◌≢◌, refl, Option, ◌==◌, arith, Bool-cases, inl, inr}
use currency_quotes_service.Domain.Errors.{Result, ok, err}
use currency_quotes_service.Storage.Schema.{Db}
use currency_quotes_service.Storage.World.{
  World, Turn, Tx, ◌>>=◌, execute, begin, query, commit, rollback, wrap, give,
}
use currency_quotes_service.Storage.Repository.{unless_stale}
use currency_quotes_service.Storage.Invariant.{Inv}
use currency_quotes_service.Storage.Guarantee.{
  Evolves, Rely, Good-refl, Outcome, bind-Safe, wrap-Safe,
}
use currency_quotes_service.Storage.Guarantee.Calls.{
  Keeps, Sees, execute-Safe, begin-Safe, query-Safe, commit-Safe, rollback-Safe,
}

-- No postcondition.
abbrev pub Nothing : {A B : Type 0} → A → B → Type 0
Nothing a b = Unit

-- The check of the rows affected passes only where there is one, and touches nothing.
pub unless_stale-Safe :
    (w : World) (n : ℕ)
    → Inv w.db
    → Outcome w (give (unless_stale n) w) (λ _ w'. (n ≢ 0) × (w'.db ≡ w.db))
unless_stale-Safe w n v = elim (Bool-cases (n == 0)) [
  | inl none_hit ↦ rw none_hit (Good-refl w v, tt)
  | inr hit ↦ rw hit (Good-refl w v, (ground arith, refl))
]

pub forget :
    {A : Type 0} (w : World) (r : Result A × World) (Q : A → World → Type 0)
    → Outcome w r Q
    → Outcome w r Nothing
forget w (ok a, w') Q h = (h.0, tt)
forget w (err e, w') Q h = (h.0, tt)

module _ (w : World) (rely : Rely w.script) (v : Inv w.db) where
  pub call-Safe :
      {A : Type 0} (s : Turn → Db → Option (A × Db)) (Q : A → Db → Type 0)
      → ((d : Db) → Evolves w.db d → Keeps (s (w.script w.at) d) d Q)
      → Outcome w (wrap (execute s) w) (λ a w'. Q a w'.db)
  call-Safe s Q k = wrap-Safe w (execute s) (λ a w'. Q a w'.db) (execute-Safe w s Q rely v k)

  pub finalise-Safe :
      (s : Turn → Db → Option (ℕ × Db))
      → ((d : Db) → Evolves w.db d → Keeps (s (w.script w.at) d) d Nothing)
      → Outcome w ((wrap (execute s) >>= λ n. give (unless_stale n)) w) Nothing
  finalise-Safe s k =
      bind-Safe w rely (wrap (execute s)) (λ n. give (unless_stale n)) Nothing Nothing
        (call-Safe s Nothing k) (λ n w' g r q. forget w' _ _ (unless_stale-Safe w' n g.evolves.inv))

-- The steps of a transaction, which started at the tables `w.db`.
module _ (w : World) (rely : Rely w.script) (v : Inv w.db) where
  pub begin_call-Safe : Outcome w (wrap begin w) (λ tx w'. tx.view ≡ w'.db)
  begin_call-Safe = wrap-Safe w begin (λ tx w'. tx.view ≡ w'.db) (begin-Safe w rely v)

  pub query_call-Safe :
      {A : Type 0} (s : Turn → Db → Option (A × Db)) (tx : Tx) (Q : A → Db → Type 0)
      → Sees (s (w.script w.at) tx.view) Q
      → Outcome w
          (wrap (query s tx) w)
          (λ (a, tx') w'. Q a tx'.view × (w'.db ≡ w.db) × (tx'.started ≡ tx.started))
  query_call-Safe s tx Q h =
      wrap-Safe w (query s tx)
        (λ (a, tx') w'. Q a tx'.view × (w'.db ≡ w.db) × (tx'.started ≡ tx.started))
        (query-Safe w s tx Q v h)

  pub commit_call-Safe :
      (tx : Tx) → Evolves w.db tx.view → Outcome w (wrap (commit tx) w) (λ _ w'. w'.db ≡ tx.view)
  commit_call-Safe tx h = wrap-Safe w (commit tx) (λ _ w'. w'.db ≡ tx.view) (commit-Safe w tx v h)

  pub rollback_call-Safe : Outcome w (wrap rollback w) (λ _ w'. w'.db ≡ w.db)
  rollback_call-Safe = wrap-Safe w rollback (λ _ w'. w'.db ≡ w.db) (rollback-Safe w v)
