-- ===== src/Storage/Creation/Calls.antt =====
-- What the answer of a call of internal/storage/postgres/repository.go says of the tables after it, and
-- chains of such calls.
use currency_quotes_service.Prelude.{suc, ◌≡◌, refl, Option, none, some}
use currency_quotes_service.Domain.Errors.{Result, ok, err}
use currency_quotes_service.Storage.Schema.{Db}
use currency_quotes_service.Storage.World.{
  World, Turn, Tx, Fate, refused, answered, unheard, answer, answer_tx, committed, M, ◌>>=◌, turn,
  query, commit, execute, wrap,
}
use currency_quotes_service.Storage.Guarantee.{After}

pub bind-After :
    {A B : Type 0} (w : World) (r : Result A × World) (f : A → M B) (P : A → World → Type 0)
    (Q : B → World → Type 0)
    → After r P
    → ((a : A) (w' : World) → P a w' → After (f a w') Q)
    → After (◌>>=◌ (λ _. r) f w) Q
bind-After w (ok a, w') f P Q p k = k a w' p
bind-After w (err e, w') f P Q p k = tt

module _ (w : World) where
  answer-After :
      {A : Type 0} (f : Fate) (r : Option (A × Db)) (d : Db)
      → After
          (wrap (λ w. let (x, d') = answer f r d in (x, record w { db = d'; at = suc w.at })) w)
          (λ a w'. r ≡ some (a, w'.db))
  answer-After refused r d = tt
  answer-After answered none d = tt
  answer-After answered (some (a, d')) d = refl
  answer-After unheard none d = tt
  answer-After unheard (some (a, d')) d = tt

  -- A call that is answered has carried its statement out.
  pub call-After :
      {A : Type 0} (s : Turn → Db → Option (A × Db))
      → After (wrap (execute s) w) (λ a w'. s (turn w) ((turn w).others w.db) ≡ some (a, w'.db))
  unfolding execute
  call-After s = let d = (turn w).others w.db in answer-After (turn w).fate (s (turn w) d) d

  answer_tx-After :
      {A : Type 0} (f : Fate) (r : Option (A × Db)) (tx : Tx)
      → After
          (wrap (λ w. (answer_tx f r tx, record w { at = suc w.at })) w)
          (λ a w'. r ≡ some (a.0, a.1.view))
  answer_tx-After answered (some (a, d)) tx = refl
  answer_tx-After answered none tx = tt
  answer_tx-After refused r tx = tt
  answer_tx-After unheard r tx = tt

  pub query-After :
      {A : Type 0} (s : Turn → Db → Option (A × Db)) (tx : Tx)
      → After (wrap (query s tx) w) (λ a w'. s (turn w) tx.view ≡ some (a.0, a.1.view))
  unfolding query
  query-After s tx = answer_tx-After (turn w).fate (s (turn w) tx.view) tx

  committed-After : (f : Fate) (tx : Tx) → After (wrap (committed f tx) w) (λ _ w'. w'.db ≡ tx.view)
  committed-After refused tx = tt
  committed-After answered tx = refl
  committed-After unheard tx = tt

  pub commit-After : (tx : Tx) → After (wrap (commit tx) w) (λ _ w'. w'.db ≡ tx.view)
  unfolding commit
  commit-After tx = committed-After (turn w).fate tx

  -- Whatever was answered.
  pub any-After : {A : Type 0} (r : Result A × World) → After r (λ a w'. Unit {0})
  any-After (ok a, w') = tt
  any-After (err e, w') = tt

pub After-mono :
    {A : Type 0} (r : Result A × World) (P Q : A → World → Type 0)
    → ((a : A) (w' : World) → P a w' → Q a w')
    → After r P
    → After r Q
After-mono (ok a, w') P Q k p = k a w' p
After-mono (err e, w') P Q k p = tt
