-- ===== src/Storage/Invariant/Completion.antt =====
-- The invariant under the two statements of `CompleteTask` together: between them a task is done and
-- has no quote.
use mathlib.Core.Bool.{false≢true}
use currency_quotes_service.Prelude.{
  ℕ, ◌<◌, ◌≡◌, ◌≢◌, refl, sym, ◌∙◌, true, false, List, [], ◌∷◌, ◌++◌, map, Option, none, some, ◌==◌,
  Text, any, count_if-any, All, All-mono, All-every, All-append, All-map, All-both, Unique,
  Unique-snoc, any_mono, any-append, All-any-false, Bool-cases, inl, inr, arith,
}
use currency_quotes_service.Domain.Task.{is_done, done}
use currency_quotes_service.Storage.Schema.{Row, QuoteRow, Db}
use currency_quotes_service.Storage.Statements.{
  has_id, of_update, new_quote, touch, update, is_held, close_task, insert_quote,
}
use currency_quotes_service.Storage.Rows.Moves.{Moves, Moves-touch, Moves-close}
use currency_quotes_service.Storage.Invariant.{Inv, same_id, same_update, is_task, Known}
use currency_quotes_service.Storage.Invariant.Updates.{
  ids-map, one_unfinished-map, rows-map, Known-map, sources-map, bindings-map,
}

-- Where a held row is found, it is the only row of its identifier.
held_only :
    (id attempts : ℕ) (rs : List Row)
    → Unique same_id rs
    → any (is_held id attempts) rs ≡ true
    → All (λ r. has_id id r ≡ true → is_held id attempts r ≡ true) rs
unfolding any
held_only id attempts [] u e = tt
held_only id attempts (r ∷ rs) u e = elim (Bool-cases (is_held id attempts r)) [
  | inl held ↦ (
    λ _. held,
    All-mono (λ s. same_id r s ≡ false) (λ s. has_id id s ≡ true → is_held id attempts s ≡ true) rs
        (λ s f h. ground arith) (All-any-false (same_id r) rs u.0),
  )
  | inr free ↦ (
    λ h. absurd (
        false≢true (
          sym (
            any_mono (is_held id attempts) (same_id r) rs
              (All-every (λ s. is_held id attempts s ≡ true → same_id r s ≡ true) rs
                (λ s t. ground arith))
              u.0)
          ∙ ground arith)),
    held_only id attempts rs u.1 (ground arith),
  )
]

abbrev pub closed : ℕ → Row → Row
closed now r = record r { status = done; error = none; updated_at = now }

module _ (now id attempts : ℕ) (pair : Text) (rate : Option ℕ) (rate_date fetched_at : ℕ)
    (d : Db) where
  g : Row → Row
  g = touch (is_held id attempts) (closed now)

  moved : All (λ r. Moves r (g r)) d.tasks
  unfolding g
  moved =
      All-every (λ r. Moves r (g r)) d.tasks
        (λ r.
          Moves-touch (is_held id attempts) (closed now) r (λ t. Moves-close now r (ground arith)))

  -- The new quote is that of the closed row; every other row keeps its own.
  finished-close :
      (q : QuoteRow)
      → q.update_id ≡ id
      → any (of_update id) d.quotes ≡ false
      → any (is_held id attempts) d.tasks ≡ true
      → Inv d
      → All (λ r. is_done r.status ≡ any (of_update r.id) (d.quotes ++ q ∷ [])) (map g d.tasks)
  unfolding g any
  finished-close q e fresh held v =
      All-map (λ r. is_done r.status ≡ any (of_update r.id) (d.quotes ++ q ∷ [])) g d.tasks
        (All-both (λ r. has_id id r ≡ true → is_held id attempts r ≡ true)
          (λ r. is_done r.status ≡ any (of_update r.id) d.quotes)
          (λ r. is_done (g r).status ≡ any (of_update (g r).id) (d.quotes ++ q ∷ [])) d.tasks
          (λ r only f. ground (arith, only, any-append (of_update r.id) d.quotes (q ∷ [])))
          (held_only id attempts d.tasks v.ids held) v.finished)

  abbrev completed : ℕ → Db
  completed n = record d {
    tasks = map g d.tasks;
    quotes = d.quotes ++ new_quote id pair rate_date fetched_at n ∷ [];
  }

  completed-Inv :
      (n : ℕ)
      → 0 < n
      → any (of_update id) d.quotes ≡ false
      → any (is_held id attempts) d.tasks ≡ true
      → Known id pair d
      → Inv d
      → Inv (completed n)
  completed-Inv n positive fresh held known v = record {
    ids = ids-map g d moved v;
    one_unfinished = one_unfinished-map g d moved v;
    rows = rows-map g d moved v;
    finished = finished-close (new_quote id pair rate_date fetched_at n) refl fresh held v;
    quote_ids =
        Unique-snoc same_update d.quotes (new_quote id pair rate_date fetched_at n) v.quote_ids (
          any_mono (λ q. id == q.update_id) (of_update id) d.quotes
            (All-every (λ q. (id == q.update_id) ≡ true → of_update id q ≡ true) d.quotes
              (λ q e. ground arith))
            fresh);
    rates = All-append (λ q. 0 < q.rate) d.quotes _ v.rates (positive, tt);
    sources =
        All-append (λ q. any (is_task q.update_id q.pair) (map g d.tasks) ≡ true) d.quotes _
          (sources-map g d moved v) (Known-map g d moved id pair ∙ known, tt);
    key_ids = v.key_ids;
    bindings = bindings-map g d moved v;
  }

-- What an INSERT into quotes that succeeds has checked.
pub insert_quote-some :
    (id : ℕ) (pair : Text) (rate : Option ℕ) (rate_date fetched_at : ℕ) (d d' : Db)
    → insert_quote id pair rate rate_date fetched_at d ≡ some d'
    → (n : ℕ) × (rate ≡ some n)
      × (0 < n)
      × (any (of_update id) d.quotes ≡ false)
      × (d' ≡ record d { quotes = d.quotes ++ new_quote id pair rate_date fetched_at n ∷ [] })
unfolding insert_quote
insert_quote-some id pair none rate_date fetched_at d d' e = cc
insert_quote-some id pair (some n) rate_date fetched_at d d' e =
    (n, refl, ground arith, ground arith, ground arith)

-- Closing a held task and storing a quote for it, in one transaction, keeps the invariant.
pub complete-Inv :
    (now id attempts : ℕ) (pair : Text) (rate : Option ℕ) (rate_date fetched_at : ℕ) (d d' : Db)
    → (close_task now id attempts d).0 ≢ 0
    → insert_quote id pair rate rate_date fetched_at (close_task now id attempts d).1 ≡ some d'
    → Known id pair d
    → Inv d
    → Inv d'
unfolding update g
complete-Inv now id attempts pair rate rate_date fetched_at d d' held e known v =
    let (n, _, positive, fresh, same) =
      insert_quote-some id pair rate rate_date fetched_at (close_task now id attempts d).1 d' e in
    rw same (
      completed-Inv now id attempts pair rate rate_date fetched_at d n positive fresh
        (ground (arith, count_if-any (is_held id attempts) d.tasks)) known v)
