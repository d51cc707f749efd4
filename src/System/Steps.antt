-- ===== src/System/Steps.antt =====
-- What every step of the service keeps: the invariant of the tables, and their moving forward.
use currency_quotes_service.Prelude.{◌≡◌, true, ◌∷◌, Option, some}
use currency_quotes_service.Storage.Schema.{Db}
use currency_quotes_service.Storage.Invariant.{Inv}
use currency_quotes_service.Storage.Recovering.{both-recovered}
use currency_quotes_service.Storage.Guarantee.{Evolves, Evolves-refl, Evolves-trans}
use currency_quotes_service.Storage.Guarantee.Calls.{Keeps}
use currency_quotes_service.Storage.Guarantee.Statements.{
  insert_task-Keeps, bind_key-Keeps, claim_oldest-Keeps, release_held-Keeps, fail_held-Keeps,
  release_stale-Keeps, abandon_stale-Keeps, complete-Keeps,
}
use currency_quotes_service.System.{
  Step, posts, posts_bound, takes, completes, fails, releases, recovers, Reach, here, next,
}

pub Keeps-some :
    {A : Type 0} (r : Option (A × Db)) (d d' : Db) (a : A) (Q : A → Db → Type 0)
    → Keeps r d Q
    → r ≡ some (a, d')
    → Evolves d d' × Q a d'
Keeps-some r d d' a Q k e = rw e at k

pub Step-Evolves : (d d' : Db) → Step d d' → Inv d → Evolves d d'
Step-Evolves d d' (posts now fresh pair t e) v =
    (Keeps-some _ d d' t _ (insert_task-Keeps now fresh pair d v) e).0
Step-Evolves d d' (posts_bound now fresh ttl key pair t m e b) v =
    let inserted = (Keeps-some _ d m t _ (insert_task-Keeps now fresh pair d v) e).0 in
    Evolves-trans d m d' inserted
      (Keeps-some _ m d' true _ (bind_key-Keeps now ttl key t.id m inserted.inv) b).0
Step-Evolves d d' (takes now locked t e) v =
    (Keeps-some _ d d' (some t) _ (claim_oldest-Keeps now locked d v) e).0
Step-Evolves d d' (completes now id attempts pair rate rate_date fetched_at k n e) v =
    complete-Keeps now id attempts pair rate rate_date fetched_at d d' n e k v
Step-Evolves d d' (fails now id attempts c reason e) v =
    rw e (fail_held-Keeps now id attempts c reason d v)
Step-Evolves d d' (releases now id attempts e) v = rw e (release_held-Keeps now id attempts d v)
Step-Evolves d d' (recovers now older_than max_attempts c reason e) v =
    let first = release_stale-Keeps now older_than max_attempts d v in
    rw (e, ← both-recovered now older_than max_attempts (c ∷ reason) d)
      (Evolves-trans d _ _ first
        (abandon_stale-Keeps now older_than max_attempts c reason _ first.inv))

-- Any number of steps of the service, of any processes in any order, keep the invariant of the tables
-- and move them forward only, from tables that keep the invariant.
pub Reach-Evolves : {d d' : Db} → Reach d d' → Inv d → Evolves d d'
Reach-Evolves {d} here v = Evolves-refl d v
Reach-Evolves {d} {d'} (next {m} r s) v =
    let g = Reach-Evolves r v in Evolves-trans d m d' g (Step-Evolves m d' s g.inv)
