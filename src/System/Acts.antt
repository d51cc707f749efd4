-- ===== src/System/Acts.antt =====
-- A process among others: what the calls of World publish, where whatever others commit is steps of the
-- service too.
use currency_quotes_service.Prelude.{ℕ, suc, ◌≡◌, refl, sym, subst, ◌∙◌, Option, none, some}
use currency_quotes_service.Domain.Errors.{Result, ok, err}
use currency_quotes_service.Storage.Schema.{Db}
use currency_quotes_service.Storage.World.{
  World, Turn, Fate, refused, answered, unheard, turn, M, Tx, ◌>>=◌, wrap, answer, execute, open_tx,
  begin, answer_tx, query, committed, commit, rolled_back, rollback,
}
use currency_quotes_service.Storage.Invariant.{Inv}
use currency_quotes_service.Storage.Guarantee.{Rely, After}
use currency_quotes_service.System.{Reach, here, Reach-trans}
use currency_quotes_service.System.Steps.{Reach-Evolves}

-- What others commit, before any call, is steps of the service.
abbrev pub Among : (ℕ → Turn) → Type 0
Among script = (n : ℕ) (d : Db) → Reach d ((script n).others d)

pub Among-Rely : (script : ℕ → Turn) → Among script → Rely script
Among-Rely script h n d v = Reach-Evolves (h n d) v

-- What a process did, with what others did meanwhile: steps of the service.
pub record Acts (w w' : World) : Type 0 where
  pub steps : Reach w.db w'.db
  pub script : w'.script ≡ w.script

pub Acts-refl : (w : World) → Acts w w
Acts-refl w = record { steps = here; script = refl }

pub Acts-trans : (w w' w'' : World) → Acts w w' → Acts w' w'' → Acts w w''
Acts-trans w w' w'' h k = record {
  steps = Reach-trans h.steps k.steps;
  script = k.script ∙ h.script;
}

pub Acts-Inv : (w w' : World) → Acts w w' → Inv w.db → Inv w'.db
Acts-Inv w w' a v = (Reach-Evolves a.steps v).inv

-- An outcome with what was done and, where there is an answer, its postcondition.
abbrev pub Does : {A : Type 0} → World → Result A × World → (A → World → Type 0) → Type 0
Does w r Q = Acts w r.1 × After r Q

module _ {A B : Type 0} (w : World) (among : Among w.script) where
  continue-Does :
      (r : Result A × World) (f : A → M B) (Q : A → World → Type 0) (R : B → World → Type 0)
      → Does w r Q
      → ((a : A) (w' : World) → Acts w w' → Among w'.script → Q a w' → Does w' (f a w') R)
      → Does w (◌>>=◌ (λ _. r) f w) R
  continue-Does (ok a, w') f Q R (h, q) k =
      let (h', r) = k a w' h (subst Among (sym h.script) among) q in
      (Acts-trans w w' (f a w').1 h h', r)
  continue-Does (err e, w') f Q R (h, q) k = (h, tt)

  pub bind-Does :
      (m : M A) (f : A → M B) (Q : A → World → Type 0) (R : B → World → Type 0)
      → Does w (m w) Q
      → ((a : A) (w' : World) → Acts w w' → Among w'.script → Q a w' → Does w' (f a w') R)
      → Does w ((m >>= f) w) R
  bind-Does m f Q R h k = continue-Does (m w) f Q R h k

module _ {A : Type 0} (w : World) (Q : A → World → Type 0) where
  wrapped-Does : (r : Result A × World) → Does w r Q → Does w (wrap (λ _. r) w) Q
  wrapped-Does (ok a, w') h = h
  wrapped-Does (err e, w') h = h

  pub wrap-Does : (m : M A) → Does w (m w) Q → Does w (wrap m w) Q
  wrap-Does m h = wrapped-Does (m w) h

-- A statement on the tables of the moment is a step, or nothing.
abbrev pub Publishes : {A : Type 0} → Option (A × Db) → Db → (A → Db → Type 0) → Type 0
Publishes none d Q = Unit
Publishes (some (a, d')) d Q = Reach d d' × Q a d'

answer-Does :
    {A : Type 0} (w : World) (f : Fate) (r : Option (A × Db)) (d : Db) (Q : A → Db → Type 0)
    → Reach w.db d
    → Publishes r d Q
    → let (res, d') = answer f r d in
      Does w (res, record w { db = d'; at = suc w.at }) (λ a w'. Q a w'.db)
answer-Does w refused r d Q h k = (record { steps = h; script = refl }, tt)
answer-Does w answered none d Q h k = (record { steps = h; script = refl }, tt)
answer-Does w answered (some (a, d')) d Q h k =
    (record { steps = Reach-trans h k.0; script = refl }, k.1)
answer-Does w unheard none d Q h k = (record { steps = h; script = refl }, tt)
answer-Does w unheard (some (a, d')) d Q h k =
    (record { steps = Reach-trans h k.0; script = refl }, tt)

module _ (w : World) (among : Among w.script) where
  execute-Does :
      {A : Type 0} (s : Turn → Db → Option (A × Db)) (Q : A → Db → Type 0)
      → ((d : Db) → Reach w.db d → Publishes (s (turn w) d) d Q)
      → Does w (execute s w) (λ a w'. Q a w'.db)
  unfolding execute
  execute-Does s Q k =
      let h = among w.at w.db in
      answer-Does w (turn w).fate (s (turn w) ((turn w).others w.db)) ((turn w).others w.db) Q h
        (k ((turn w).others w.db) h)

  -- A call of one statement.
  pub call-Does :
      {A : Type 0} (s : Turn → Db → Option (A × Db)) (Q : A → Db → Type 0)
      → ((d : Db) → Reach w.db d → Publishes (s (turn w) d) d Q)
      → Does w (wrap (execute s) w) (λ a w'. Q a w'.db)
  call-Does s Q k = wrap-Does w (λ a w'. Q a w'.db) (execute s) (execute-Does s Q k)

  begin-Does : Does w (begin w) (λ tx w'. tx.view ≡ w'.db)
  unfolding begin
  begin-Does = execute-Does open_tx (λ tx d. tx.view ≡ d) (λ d h. (here, refl))

  pub begin_call-Does : Does w (wrap begin w) (λ tx w'. tx.view ≡ w'.db)
  begin_call-Does = wrap-Does w (λ tx w'. tx.view ≡ w'.db) begin begin-Does

answer_tx-Does :
    {A : Type 0} (w : World) (f : Fate) (r : Option (A × Db)) (tx : Tx)
    → Does w
        (answer_tx f r tx, record w { at = suc w.at })
        (λ (a, tx') w'. (r ≡ some (a, tx'.view)) × (w'.db ≡ w.db) × (tx'.started ≡ tx.started))
answer_tx-Does w answered none tx = (record { steps = here; script = refl }, tt)
answer_tx-Does w answered (some (a, d)) tx =
    (record { steps = here; script = refl }, (refl, refl, refl))
answer_tx-Does w refused r tx = (record { steps = here; script = refl }, tt)
answer_tx-Does w unheard r tx = (record { steps = here; script = refl }, tt)

committed-Does :
    (w : World) (f : Fate) (tx : Tx)
    → Reach w.db tx.view
    → Does w (committed f tx w) (λ _ w'. w'.db ≡ tx.view)
committed-Does w refused tx h = (record { steps = here; script = refl }, tt)
committed-Does w answered tx h = (record { steps = h; script = refl }, refl)
committed-Does w unheard tx h = (record { steps = h; script = refl }, tt)

rolled_back-Does :
    (w : World) (f : Fate) → Does w (rolled_back f, record w { at = suc w.at }) (λ _ w'. Unit)
rolled_back-Does w refused = (record { steps = here; script = refl }, tt)
rolled_back-Does w answered = (record { steps = here; script = refl }, tt)
rolled_back-Does w unheard = (record { steps = here; script = refl }, tt)

-- A statement within a transaction publishes nothing.
pub query_call-Does :
    {A : Type 0} (w : World) (s : Turn → Db → Option (A × Db)) (tx : Tx)
    → Does w (wrap (query s tx) w) (λ (a, tx') w'.
      (s (turn w) tx.view ≡ some (a, tx'.view)) × (w'.db ≡ w.db) × (tx'.started ≡ tx.started))
unfolding query
query_call-Does w s tx =
    wrap-Does w _ (query s tx) (answer_tx-Does w (turn w).fate (s (turn w) tx.view) tx)

-- A commit publishes the whole transaction, or nothing.
pub commit_call-Does :
    (w : World) (tx : Tx)
    → Reach w.db tx.view
    → Does w (wrap (commit tx) w) (λ _ w'. w'.db ≡ tx.view)
unfolding commit
commit_call-Does w tx h = wrap-Does w _ (commit tx) (committed-Does w (turn w).fate tx h)

pub rollback_call-Does : (w : World) → Does w (wrap rollback w) (λ _ w'. Unit)
unfolding rollback
rollback_call-Does w = wrap-Does w _ rollback (rolled_back-Does w (turn w).fate)
