-- ===== src/System/Delivery.antt =====
-- What a completed task brings to its clients: the rate that the worker was given, read back from the
-- database by GET /quotes/updates/{id} and GET /quotes/latest.
pub mod Answers
use currency_quotes_service.Prelude.{
  ℕ, ◌≡◌, sym, ap, subst, ◌∙◌, inl, inr, true, false, List, [], ◌∷◌, ◌++◌, Option, some, any, find?,
  find?-some, find?-Extends, Bool, Option-cases, Text, arith,
}
use currency_quotes_service.Domain.Errors.{ok}
use currency_quotes_service.Domain.Task.{UpdateTask, Quote, TaskDetails, is_done, done}
use currency_quotes_service.Storage.Schema.{QuoteRow, Db}
use currency_quotes_service.Storage.Statements.{
  has_id, of_update, new_quote, insert_quote, select_task,
}
use currency_quotes_service.Storage.World.{World, turn}
use currency_quotes_service.Storage.Repository.{
  Decimals, complete_task, get_task, read_details, read_quote,
}
use currency_quotes_service.Storage.Invariant.{Inv}
use currency_quotes_service.Storage.Invariant.Completion.{insert_quote-some}
use currency_quotes_service.Storage.Finalising.{IsOk, complete_task-atomic}
use currency_quotes_service.Storage.Reading.{
  Consistent, Reads, read_details-Reads, select_task-Consistent,
}
use currency_quotes_service.System.{Reach}
use currency_quotes_service.System.Steps.{Reach-Evolves}
use currency_quotes_service.System.Settled.{get_task-read, task_of}

-- A search that only the last element passes.
find?-append_last :
    {A : Type 0} (p : A → Bool) (xs : List A) (x : A)
    → any p xs ≡ false
    → p x ≡ true
    → find? p (xs ++ x ∷ []) ≡ some x
unfolding find? any
find?-append_last p [] x e h = ground arith
find?-append_last p (y ∷ xs) x e h = ground (arith, find?-append_last p xs x)

-- The quote of the claim is found in the tables.
abbrev pub Stored : ℕ → Text → Option ℕ → ℕ → ℕ → Db → Type 0
Stored id pair rate rate_date fetched_at d =
    (n : ℕ) × (rate ≡ some n)
    × (find? (of_update id) d.quotes ≡ some (new_quote id pair rate_date fetched_at n))

module _ (id : ℕ) (pair : Text) (rate : Option ℕ) (rate_date fetched_at : ℕ) where
  insert_quote-Stored :
      (d d' : Db)
      → insert_quote id pair rate rate_date fetched_at d ≡ some d'
      → Stored id pair rate rate_date fetched_at d'
  insert_quote-Stored d d' e =
      let (n, cast, _, fresh, same) = insert_quote-some id pair rate rate_date fetched_at d d' e in
      (
        n,
        cast,
        ap (λ (x : Db). find? (of_update id) x.quotes) same
            ∙ find?-append_last (of_update id) d.quotes (new_quote id pair rate_date fetched_at n)
                fresh (ground arith),
      )

  -- It stays there.
  pub Stored-Reach :
      (d d' : Db)
      → Inv d
      → Reach d d'
      → Stored id pair rate rate_date fetched_at d
      → Stored id pair rate rate_date fetched_at d'
  Stored-Reach d d' v r (n, cast, found) =
      let (q, found', same) =
        find?-Extends (of_update id) (λ (p q : QuoteRow). q ≡ p) d.quotes d'.quotes _
          (λ x y s. ap (λ z. of_update id z) s) (Reach-Evolves r v).progress.quotes found in
      (n, cast, found' ∙ ap some same)

  -- A read of the task joins it.
  select_task-Stored :
      (d : Db) (t : UpdateTask) (o : Option QuoteRow)
      → select_task id d ≡ some (t, o)
      → (s : Stored id pair rate rate_date fetched_at d)
      → o ≡ some (new_quote id pair rate_date fetched_at s.0)
  unfolding select_task
  select_task-Stored d t o e (n, cast, found) = elim (Option-cases (find? (has_id id) d.tasks)) [
    | inl missing ↦ ground (arith, missing)
    | inr (r, hit) ↦
        let own : r.id ≡ id = ground (arith, find?-some (has_id id) d.tasks r hit) in
        let joined : find? (of_update r.id) d.quotes ≡ o = ground (arith, hit) in
        sym joined
        ∙ subst
            (λ k. find? (of_update k) d.quotes ≡ some (new_quote id pair rate_date fetched_at n))
            (sym own) found
  ]

module _ (decimals : Decimals) where
  -- The quote that a client is given is the one that was stored: its rate is the conversion of what
  -- the conversion of the worker's rate left in the column.
  abbrev pub Delivered :
      UpdateTask → decimals.Decimal → ℕ → ℕ → TaskDetails decimals.Decimal → Type 0
  Delivered claim rate rate_date fetched_at details =
      (details.task.id ≡ claim.id)
      × (details.task.pair ≡ claim.pair)
      × (details.task.status ≡ done)
      × (details.task.error ≡ [])
      × (q : Quote decimals.Decimal) × (details.quote ≡ some q)
      × (q.update_id ≡ claim.id)
      × (q.pair ≡ claim.pair)
      × (q.rate_date ≡ rate_date)
      × (q.fetched_at ≡ fetched_at)
      × (n : ℕ) × (decimals.to_numeric rate ≡ some n)
      × (decimals.of_numeric n ≡ some q.rate)

  read_quote-eq_ok :
      (p : QuoteRow) (q : Quote decimals.Decimal)
      → read_quote decimals p ≡ ok q
      → (q.update_id ≡ p.update_id)
        × (q.pair ≡ p.pair)
        × (q.rate_date ≡ p.rate_date)
        × (q.fetched_at ≡ p.fetched_at)
        × (decimals.of_numeric p.rate ≡ some q.rate)
  unfolding read_quote
  read_quote-eq_ok p q e = elim (Option-cases (decimals.of_numeric p.rate)) [
    | inl nothing ↦ ground (arith, nothing)
    | inr (x, found) ↦ ground (arith, found)
  ]

  is_done-eq : (t : UpdateTask) → is_done t.status ≡ true → t.status ≡ done
  is_done-eq t e = ground arith

  -- A task that is done with its quote has the pair of the quote and no reason.
  done-silent : (t : UpdateTask) (q : QuoteRow) → Consistent t (some q) → t.error ≡ []
  done-silent t q c = ground (arith, c.quoted, c.reasoned)

  pub complete_task-Stored :
      (claim : UpdateTask) (rate : decimals.Decimal) (rate_date fetched_at : ℕ) (w w' : World)
      → complete_task decimals claim rate rate_date fetched_at w ≡ (ok tt, w')
      → Stored claim.id claim.pair (decimals.to_numeric rate) rate_date fetched_at w'.db
  complete_task-Stored claim rate rate_date fetched_at w w' e =
      elim (complete_task-atomic decimals claim rate rate_date fetched_at w) [
        | inl h ↦ absurd (h.1 (subst (λ x. IsOk x.0) (sym e) tt))
        | inr h ↦
            subst
              (λ x.
                Stored claim.id claim.pair (decimals.to_numeric rate) rate_date fetched_at x.1.db)
              e
              (insert_quote-Stored claim.id claim.pair (decimals.to_numeric rate) rate_date
                fetched_at _ _ h.1)
      ]

  read-Delivered :
      (claim : UpdateTask) (rate : decimals.Decimal) (rate_date fetched_at : ℕ) (d : Db)
      (t : UpdateTask) (o : Option QuoteRow) (details : TaskDetails decimals.Decimal)
      → Inv d
      → select_task claim.id d ≡ some (t, o)
      → read_details decimals (some (t, o)) ≡ ok details
      → Stored claim.id claim.pair (decimals.to_numeric rate) rate_date fetched_at d
      → Delivered claim rate rate_date fetched_at details
  read-Delivered claim rate rate_date fetched_at d t o details v e r s =
      let row = new_quote claim.id claim.pair rate_date fetched_at s.0 in
      let same =
        select_task-Stored claim.id claim.pair (decimals.to_numeric rate) rate_date fetched_at d t o
          e s in
      let (own, consistent') = select_task-Consistent claim.id d t o v e in
      let consistent = subst (λ x. Consistent t x) same consistent' in
      let (task, reads) = read_details-Reads decimals t o details r in
      let (q, quoted, read) = subst (Reads decimals details) same reads in
      let (update_id, pair, date, time, value) = read_quote-eq_ok row q read in
      (
        ap (λ (x : UpdateTask). x.id) task ∙ own,
        ap (λ (x : UpdateTask). x.pair) task ∙ sym consistent.own_quote.1,
        ap (λ (x : UpdateTask). x.status) task ∙ is_done-eq t consistent.quoted,
        ap (λ (x : UpdateTask). x.error) task ∙ done-silent t row consistent,
        q,
        quoted,
        update_id,
        pair,
        date,
        time,
        s.0,
        s.1,
        value,
      )

  -- Once CompleteTask has been answered without an error, every answer of GetTask for the task is a
  -- task that is done with the quote of the claim, its rate as the database and the decimal library
  -- convert it, after any steps of the service, from tables that keep the invariant.
  pub complete_task-Delivered :
      (claim : UpdateTask) (rate : decimals.Decimal) (rate_date fetched_at : ℕ) (w w' v v' : World)
      (details : TaskDetails decimals.Decimal)
      → Inv w'.db
      → complete_task decimals claim rate rate_date fetched_at w ≡ (ok tt, w')
      → Reach w'.db ((turn v).others v.db)
      → get_task decimals claim.id v ≡ (ok details, v')
      → Delivered claim rate rate_date fetched_at details
  complete_task-Delivered claim rate rate_date fetched_at w w' v v' details inv e r k =
      let stored =
        Stored-Reach claim.id claim.pair (decimals.to_numeric rate) rate_date fetched_at w'.db
          ((turn v).others v.db) inv r
          (complete_task-Stored claim rate rate_date fetched_at w w' e) in
      let (found, read, answer, _) = get_task-read decimals claim.id v v' details k in
      let (t, o, shape, _) = task_of decimals found details answer in
      read-Delivered claim rate rate_date fetched_at ((turn v).others v.db) t o details
        (Reach-Evolves r inv).inv (read ∙ shape) (ap (read_details decimals) (sym shape) ∙ answer)
        stored
