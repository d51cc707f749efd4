-- ===== src/System/Bindings.antt =====
-- An idempotency key over time: as long as the binding that a post left has not outlived its lifetime,
-- the key is answered with the task of that post.
use mathlib.Core.Bool.{false≢true}
use currency_quotes_service.Prelude.{
  ℕ, ◌+◌, ◌<◌, ◌≡◌, refl, sym, ap, subst, ◌∙◌, ◌⊎◌, inl, inr, Bool, true, List, [], ◌∷◌, some, Text,
  any, In, In-any, Unique, find?, find?-some, find?-none, find?-In, All-In, Option-cases,
  Bool-cases, arith, ◌≢◌,
}
use currency_quotes_service.Domain.Errors.{ok}
use currency_quotes_service.Domain.Task.{UpdateTask}
use currency_quotes_service.Storage.Schema.{KeyRow, Db}
use currency_quotes_service.Storage.Statements.{
  has_id, has_key, occupies, insert_task, claim_oldest, oldest_pending, close_task, update,
}
use currency_quotes_service.Storage.World.{World, Fate, refused, answered, unheard, turn, execute}
use currency_quotes_service.Storage.Repository.{create_task, task_by_key}
use currency_quotes_service.Storage.Invariant.{Inv, same_key}
use currency_quotes_service.Storage.Invariant.Completion.{insert_quote-some}
use currency_quotes_service.Storage.Idempotency.{bind_key-keeps, create_task-replay}
use currency_quotes_service.Storage.Finalising.{IsOk}
use currency_quotes_service.System.{
  Step, posts, posts_bound, takes, completes, fails, releases, recovers, Reach, here, next,
}
use currency_quotes_service.System.Acts.{Among, Does, Acts-Inv}
use currency_quotes_service.System.Steps.{Reach-Evolves}
use currency_quotes_service.System.Posting.{Bound, create_task-Bound}

-- A step that binds a key does so with this lifetime, and before this moment.
abbrev pub Early : {d d' : Db} → ℕ → ℕ → Step d d' → Type 0
Early ttl limit (posts_bound now fresh ttl' key pair t m e b) = (ttl' ≡ ttl) × (now < limit)
Early ttl limit s = Unit

abbrev pub AllEarly : {d d' : Db} → ℕ → ℕ → Reach d d' → Type 0
AllEarly ttl limit here = Unit
AllEarly ttl limit (next r s) = AllEarly ttl limit r × Early ttl limit s

insert_task-keys :
    (now fresh : ℕ) (pair : Text) (d d' : Db) (t : UpdateTask)
    → insert_task now fresh pair d ≡ some (t, d')
    → d'.keys ≡ d.keys
unfolding insert_task
insert_task-keys now fresh pair d d' t e = elim (Option-cases (find? (occupies pair) d.tasks)) [
  | inl free ↦ ground (arith, free)
  | inr (r, found) ↦ ground (arith, found)
]

claim_oldest-keys :
    (now : ℕ) (locked : ℕ → Bool) (d d' : Db) (t : UpdateTask)
    → claim_oldest now locked d ≡ some (some t, d')
    → d'.keys ≡ d.keys
unfolding claim_oldest update
claim_oldest-keys now locked d d' t e = elim (Option-cases (oldest_pending locked d.tasks)) [
  | inl nothing ↦ ground (arith, nothing)
  | inr (r, found) ↦ ground (arith, found)
]

Step-keeps :
    {d d' : Db} (ttl : ℕ) (k : KeyRow) (s : Step d d')
    → find? (has_key k.key) d.keys ≡ some k
    → Early ttl (k.created_at + ttl) s
    → find? (has_key k.key) d'.keys ≡ some k
unfolding update
Step-keeps {d} {d'} ttl k (posts now fresh pair t e) f h =
    subst (λ ks. find? (has_key k.key) ks ≡ some k) (sym (insert_task-keys now fresh pair d d' t e))
      f
Step-keeps {d} {d'} ttl k (posts_bound now fresh ttl' key pair t m e b) f h =
    let kept =
      subst (λ ks. find? (has_key k.key) ks ≡ some k)
        (sym (insert_task-keys now fresh pair d m t e)) f in
    bind_key-keeps now ttl' key t.id m d' true k b kept (ground (arith, h.0, h.1))
Step-keeps {d} {d'} ttl k (takes now locked t e) f h =
    subst (λ ks. find? (has_key k.key) ks ≡ some k) (sym (claim_oldest-keys now locked d d' t e)) f
Step-keeps {d} {d'} ttl k (completes now id attempts pair rate rate_date fetched_at known n e) f h =
    let (_, _, _, _, same) =
      insert_quote-some id pair rate rate_date fetched_at (close_task now id attempts d).1 d' e in
    subst (λ x. find? (has_key k.key) x.keys ≡ some k) (sym same) f
Step-keeps ttl k (fails now id attempts c reason e) f h =
    subst (λ x. find? (has_key k.key) x.keys ≡ some k) (sym e) f
Step-keeps ttl k (releases now id attempts e) f h =
    subst (λ x. find? (has_key k.key) x.keys ≡ some k) (sym e) f
Step-keeps ttl k (recovers now older_than max_attempts c reason e) f h =
    subst (λ x. find? (has_key k.key) x.keys ≡ some k) (sym e) f

-- A binding survives any steps of the service that do not bind keys past its lifetime.
Reach-keeps :
    {d d' : Db} (ttl : ℕ) (k : KeyRow) (r : Reach d d')
    → find? (has_key k.key) d.keys ≡ some k
    → AllEarly ttl (k.created_at + ttl) r
    → find? (has_key k.key) d'.keys ≡ some k
Reach-keeps ttl k here f h = f
Reach-keeps ttl k (next r s) f h = Step-keeps ttl k s (Reach-keeps ttl k r f h.0) h.1

-- Where keys are unique, the first row of a key is any row of it.
only_binding :
    (key : ℕ) (ks : List KeyRow) (j k : KeyRow)
    → Unique same_key ks
    → In j ks
    → has_key key j ≡ true
    → find? (has_key key) ks ≡ some k
    → j ≡ k
unfolding find?
only_binding key [] j k u m h e = cc
only_binding key (i ∷ ks) j k u (inl s) h e = ground (arith, s)
only_binding key (i ∷ ks) j k u (inr m) h e = elim (Bool-cases (has_key key i)) [
  | inl hit ↦ absurd (false≢true (sym u.0 ∙ In-any (same_key i) j ks m (ground (arith, hit, h))))
  | inr miss ↦ only_binding key ks j k u.1 m h (ground (arith, miss))
]

Fate-cases : (f : Fate) → (f ≡ answered) ⊎ (f ≢ answered)
Fate-cases answered = inl refl
Fate-cases refused = inr (λ e. cc)
Fate-cases unheard = inr (λ e. cc)

-- A post with a key whose first call is not answered is an error.
unheard_post :
    (ttl key : ℕ) (pair : Text) (v : World) (f : Fate)
    → (turn v).fate ≡ f
    → f ≢ answered
    → ¬ IsOk (create_task ttl pair (some key) v).0
unfolding create_task task_by_key execute
unheard_post ttl key pair v answered e h = absurd (h refl)
unheard_post ttl key pair v refused e h = rw e (λ x. x)
unheard_post ttl key pair v unheard e h = rw e (λ x. x)

-- A post whose key is bound, within the lifetime of the binding, is answered with the bound task, if
-- with any.
replayed_id :
    (ttl key : ℕ) (pair : Text) (v v' : World) (k : KeyRow) (t : UpdateTask)
    → Inv ((turn v).others v.db)
    → find? (has_key key) ((turn v).others v.db).keys ≡ some k
    → (turn v).now < k.created_at + ttl
    → create_task ttl pair (some key) v ≡ (ok t, v')
    → t.id ≡ k.update_id
replayed_id ttl key pair v v' k t inv found live e = elim (Fate-cases (turn v).fate) [
  | inr lost ↦
      absurd
        (unheard_post ttl key pair v (turn v).fate refl lost (subst (λ x. IsOk x.0) (sym e) tt))
  | inl heard ↦
      let d = (turn v).others v.db in
      let known =
        All-In (λ k. any (has_id k.update_id) d.tasks ≡ true) d.keys k inv.bindings
          (find?-In (has_key key) d.keys k found) in
      elim (Option-cases (find? (has_id k.update_id) d.tasks)) [
        | inl missing ↦
            absurd (false≢true (sym (find?-none (has_id k.update_id) d.tasks missing) ∙ known))
        | inr (r, stored) ↦
            let (reply, _) = create_task-replay ttl key pair v k r heard found live stored in
            ground
              (arith, find?-some (has_id k.update_id) d.tasks r stored, sym reply ∙ ap (λ x. x.0) e)
      ]
]

-- Two posts with one key that are both answered are answered with the same update, whatever the pair of
-- the second, after any steps of the service between them, from tables that keep the invariant and
-- where others do steps of the service, as long as the second post comes, and keys are bound in
-- between, with the one lifetime and before the binding that the first post left has outlived it.
pub create_task-once :
    (ttl key : ℕ) (pair pair' : Text) (w w' v v' : World) (t t' : UpdateTask) (k : KeyRow)
    (r : Reach w'.db ((turn v).others v.db))
    → Among w.script
    → Inv w.db
    → create_task ttl pair (some key) w ≡ (ok t, w')
    → find? (has_key key) w'.db.keys ≡ some k
    → AllEarly ttl (k.created_at + ttl) r
    → (turn v).now < k.created_at + ttl
    → create_task ttl pair' (some key) v ≡ (ok t', v')
    → t'.id ≡ t.id
create_task-once ttl key pair pair' w w' v v' t t' k r among inv e found early live f =
    let (acts, bound) =
      subst (λ x. Does w x (λ t w'. Bound key t.id w'.db)) e
        (create_task-Bound w ttl key pair among) in
    let left = Acts-Inv w w' acts inv in
    let (j, m, own, id) = bound in
    let same = only_binding key w'.db.keys j k left.key_ids m own found in
    let name : k.key ≡ key = ground (arith, find?-some (has_key key) w'.db.keys k found) in
    let kept =
      Reach-keeps ttl k r (subst (λ n. find? (has_key n) w'.db.keys ≡ some k) (sym name) found)
        early in
    let still = subst (λ n. find? (has_key n) ((turn v).others v.db).keys ≡ some k) name kept in
    replayed_id ttl key pair' v v' k t' (Reach-Evolves r left).inv still live f
    ∙ sym (ap (λ x. x.update_id) same)
    ∙ id
