-- ===== src/Storage/Progress.antt =====
-- How the tables of migrations/ change over time, row by row.
use currency_quotes_service.Prelude.{
  ℕ, ◌≡◌, refl, ◌∙◌, Bool, true, ◌∷◌, [], ◌++◌, Option, some, Text, All, All-mono, Extends,
  Extends-refl, Extends-trans, Extends-append, Extends-map, any-Extends, Option-cases, find?, inl,
  inr, arith,
}
use currency_quotes_service.Domain.Task.{UpdateTask}
use currency_quotes_service.Storage.Schema.{Row, QuoteRow, Db}
use currency_quotes_service.Storage.Statements.{
  touch, update, occupies, new_row, insert_task, bind_key, insert_quote, new_quote,
}
use currency_quotes_service.Storage.Rows.{Later, Later-refl, Later-trans}
use currency_quotes_service.Storage.Rows.Moves.{Moves, Moves-touch}
use currency_quotes_service.Storage.Invariant.Completion.{insert_quote-some}
use currency_quotes_service.Storage.Invariant.{Known, is_task}

pub record Progress (d d' : Db) : Type 0 where
  pub tasks : Extends Later d.tasks d'.tasks
  pub quotes : Extends (λ (p q : QuoteRow). q ≡ p) d.quotes d'.quotes

pub Progress-refl : (d : Db) → Progress d d
Progress-refl d = record {
  tasks = Extends-refl Later Later-refl d.tasks;
  quotes = Extends-refl _ (λ q. refl) d.quotes;
}

pub Progress-trans : (d d' d'' : Db) → Progress d d' → Progress d' d'' → Progress d d''
Progress-trans d d' d'' h k = record {
  tasks = Extends-trans Later Later-trans d.tasks d'.tasks d''.tasks h.tasks k.tasks;
  quotes =
      Extends-trans (λ (p q : QuoteRow). q ≡ p) (λ x y z e f. f ∙ e) d.quotes d'.quotes d''.quotes
        h.quotes k.quotes;
}

-- A task that is known stays known.
pub Known-Progress :
    (id : ℕ) (pair : Text) (d d' : Db) → Progress d d' → Known id pair d → Known id pair d'
Known-Progress id pair d d' h =
    any-Extends (is_task id pair) Later d.tasks d'.tasks
      (λ x y l e. ground (arith, l.same_id, l.same_pair)) h.tasks

pub update-Progress :
    (test : Row → Bool) (set : Row → Row) (d : Db)
    → All (λ r. test r ≡ true → Moves r (set r)) d.tasks
    → Progress d (update test set d).1
unfolding update
update-Progress test set d h = record {
  tasks = Extends-map Later (touch test set) d.tasks (
      All-mono (λ r. test r ≡ true → Moves r (set r)) (λ r. Later r (touch test set r)) d.tasks
        (λ r m. (Moves-touch test set r m).later) h);
  quotes = Extends-refl _ (λ q. refl) d.quotes;
}

pub append-Progress : (d : Db) (r : Row) → Progress d (record d { tasks = d.tasks ++ r ∷ [] })
append-Progress d r = record {
  tasks = Extends-append Later Later-refl d.tasks (r ∷ []);
  quotes = Extends-refl _ (λ q. refl) d.quotes;
}

pub insert_task-Progress :
    (now fresh : ℕ) (pair : Text) (d d' : Db) (t : UpdateTask)
    → insert_task now fresh pair d ≡ some (t, d')
    → Progress d d'
unfolding insert_task
insert_task-Progress now fresh pair d d' t e = elim (Option-cases (find? (occupies pair) d.tasks)) [
  | inl free ↦ ground (arith, free, append-Progress d (new_row now fresh pair))
  | inr (r, found) ↦ ground (arith, found, Progress-refl d)
]

pub bind_key-Progress :
    (now ttl key id : ℕ) (d d' : Db) (b : Bool)
    → bind_key now ttl key id d ≡ some (b, d')
    → Progress d d'
unfolding bind_key
bind_key-Progress now ttl key id d d' b e = ground (
  arith,
  Extends-refl Later Later-refl d.tasks,
  Extends-refl (λ (p q : QuoteRow). q ≡ p) (λ q. refl) d.quotes,
)

pub insert_quote-Progress :
    (id : ℕ) (pair : Text) (rate : Option ℕ) (rate_date fetched_at : ℕ) (d d' : Db)
    → insert_quote id pair rate rate_date fetched_at d ≡ some d'
    → Progress d d'
insert_quote-Progress id pair rate rate_date fetched_at d d' e =
    let (n, _, _, _, same) = insert_quote-some id pair rate rate_date fetched_at d d' e in
    rw same (record {
      tasks = Extends-refl Later Later-refl d.tasks;
      quotes =
          Extends-append (λ (p q : QuoteRow). q ≡ p) (λ q. refl) d.quotes
            (new_quote id pair rate_date fetched_at n ∷ []);
    })
