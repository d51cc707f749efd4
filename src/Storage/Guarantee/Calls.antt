-- ===== src/Storage/Guarantee/Calls.antt =====
-- The calls of World, by their statements.
use currency_quotes_service.Prelude.{suc, ◌≡◌, refl, Option, some, none}
use currency_quotes_service.Storage.Schema.{Db}
use currency_quotes_service.Storage.World.{
  World, Turn, Fate, refused, answered, unheard, Tx, turn, answer, answer_tx, execute, open_tx,
  begin, query, committed, commit, rolled_back, rollback,
}
use currency_quotes_service.Storage.Invariant.{Inv}
use currency_quotes_service.Storage.Guarantee.{Evolves, Evolves-trans, Evolves-refl, Rely, Outcome}

-- A statement on the tables of the moment: what it does to them, and what it answers.
abbrev pub Keeps : {A : Type 0} → Option (A × Db) → Db → (A → Db → Type 0) → Type 0
Keeps none d Q = Unit
Keeps (some (a, d')) d Q = Evolves d d' × Q a d'

answer-Safe :
    {A : Type 0} (w : World) (f : Fate) (r : Option (A × Db)) (d : Db) (Q : A → Db → Type 0)
    → Evolves w.db d
    → Keeps r d Q
    → let (res, d') = answer f r d in
      Outcome w (res, record w { db = d'; at = suc w.at }) (λ a w'. Q a w'.db)
answer-Safe w refused r d Q h k = (record { evolves = h; script = refl }, tt)
answer-Safe w answered none d Q h k = (record { evolves = h; script = refl }, tt)
answer-Safe w answered (some (a, d')) d Q h k =
    (record { evolves = Evolves-trans w.db d d' h k.0; script = refl }, k.1)
answer-Safe w unheard none d Q h k = (record { evolves = h; script = refl }, tt)
answer-Safe w unheard (some (a, d')) d Q h k =
    (record { evolves = Evolves-trans w.db d d' h k.0; script = refl }, tt)

pub execute-Safe :
    {A : Type 0} (w : World) (s : Turn → Db → Option (A × Db)) (Q : A → Db → Type 0)
    → Rely w.script
    → Inv w.db
    → ((d : Db) → Evolves w.db d → Keeps (s (turn w) d) d Q)
    → Outcome w (execute s w) (λ a w'. Q a w'.db)
unfolding execute
execute-Safe w s Q rely v k =
    let h = rely w.at w.db v in
    answer-Safe w (turn w).fate (s (turn w) ((turn w).others w.db)) ((turn w).others w.db) Q h
      (k ((turn w).others w.db) h)

-- A transaction starts from the tables of the moment.
pub begin-Safe :
    (w : World) → Rely w.script → Inv w.db → Outcome w (begin w) (λ tx w'. tx.view ≡ w'.db)
unfolding begin
begin-Safe w rely v =
    execute-Safe w open_tx (λ tx d. tx.view ≡ d) rely v (λ d h. (Evolves-refl d h.inv, refl))

-- What a statement inside the transaction answers, and the tables that it then sees.
abbrev pub Sees : {A : Type 0} → Option (A × Db) → (A → Db → Type 0) → Type 0
Sees none Q = Unit
Sees (some (a, d)) Q = Q a d

answer_tx-Safe :
    {A : Type 0} (w : World) (f : Fate) (r : Option (A × Db)) (tx : Tx) (Q : A → Db → Type 0)
    → Inv w.db
    → Sees r Q
    → Outcome w
        (answer_tx f r tx, record w { at = suc w.at })
        (λ (a, tx') w'. Q a tx'.view × (w'.db ≡ w.db) × (tx'.started ≡ tx.started))
answer_tx-Safe w answered none tx Q v h =
    (record { evolves = Evolves-refl w.db v; script = refl }, tt)
answer_tx-Safe w answered (some (a, d)) tx Q v h =
    (record { evolves = Evolves-refl w.db v; script = refl }, (h, refl, refl))
answer_tx-Safe w refused r tx Q v h = (record { evolves = Evolves-refl w.db v; script = refl }, tt)
answer_tx-Safe w unheard r tx Q v h = (record { evolves = Evolves-refl w.db v; script = refl }, tt)

pub query-Safe :
    {A : Type 0} (w : World) (s : Turn → Db → Option (A × Db)) (tx : Tx) (Q : A → Db → Type 0)
    → Inv w.db
    → Sees (s (turn w) tx.view) Q
    → Outcome w
        (query s tx w)
        (λ (a, tx') w'. Q a tx'.view × (w'.db ≡ w.db) × (tx'.started ≡ tx.started))
unfolding query
query-Safe w s tx Q v h = answer_tx-Safe w (turn w).fate (s (turn w) tx.view) tx Q v h

committed-Safe :
    (w : World) (f : Fate) (tx : Tx)
    → Inv w.db
    → Evolves w.db tx.view
    → Outcome w (committed f tx w) (λ _ w'. w'.db ≡ tx.view)
committed-Safe w refused tx v h = (record { evolves = Evolves-refl w.db v; script = refl }, tt)
committed-Safe w answered tx v h = (record { evolves = h; script = refl }, refl)
committed-Safe w unheard tx v h = (record { evolves = h; script = refl }, tt)

-- What the transaction did is published whole, or not at all.
pub commit-Safe :
    (w : World) (tx : Tx)
    → Inv w.db
    → Evolves w.db tx.view
    → Outcome w (commit tx w) (λ _ w'. w'.db ≡ tx.view)
unfolding commit
commit-Safe w tx v h = committed-Safe w (turn w).fate tx v h

rolled_back-Safe :
    (w : World) (f : Fate)
    → Inv w.db
    → Outcome w (rolled_back f, record w { at = suc w.at }) (λ _ w'. w'.db ≡ w.db)
rolled_back-Safe w refused v = (record { evolves = Evolves-refl w.db v; script = refl }, tt)
rolled_back-Safe w answered v = (record { evolves = Evolves-refl w.db v; script = refl }, refl)
rolled_back-Safe w unheard v = (record { evolves = Evolves-refl w.db v; script = refl }, tt)

pub rollback-Safe : (w : World) → Inv w.db → Outcome w (rollback w) (λ _ w'. w'.db ≡ w.db)
unfolding rollback
rollback-Safe w v = rolled_back-Safe w (turn w).fate v

-- What holds of a statement by itself holds of it inside a transaction.
pub sees_both :
    {A : Type 0} (r : Option (A × Db)) (d : Db) (Q : A → Db → Type 0)
    → Keeps r d Q
    → Sees r (λ a d'. Evolves d d' × Q a d')
sees_both none d Q h = tt
sees_both (some (a, d')) d Q h = h

pub sees_of_keeps :
    {A : Type 0} (r : Option (A × Db)) (d : Db) (Q : A → Db → Type 0)
    → Keeps r d Q
    → Sees r (λ a d'. Evolves d d')
sees_of_keeps none d Q h = tt
sees_of_keeps (some (a, d')) d Q h = h.0
