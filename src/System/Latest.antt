-- ===== src/System/Latest.antt =====
-- What GET /quotes/latest answers once a task of the pair has been completed.
pub mod Answers
use currency_quotes_service.Prelude.{
  ℕ, ◌≤◌, ◌≡◌, ◌≢◌, refl, sym, ◌∙◌, inl, inr, true, false, Option, none, some, find?-In, All-In,
  In-any, Text, text_eq, text_eq_iff, arith,
}
use mathlib.Core.Bool.{false≢true}
use currency_quotes_service.Domain.Errors.{Error, Result, ok, err, is, not_found}
use currency_quotes_service.Domain.Task.{UpdateTask, Quote}
use currency_quotes_service.Storage.Schema.{QuoteRow, Db}
use currency_quotes_service.Storage.Statements.{of_update, new_quote, select_latest}
use currency_quotes_service.Storage.World.{World, turn, wrap, execute}
use currency_quotes_service.Storage.World.Laws.{call-eq_ok, call-eq_err, bind-give-eq_err}
use currency_quotes_service.Storage.Repository.{
  Decimals, complete_task, get_latest_quote, read_latest, read_quote, select_latest_call,
}
use currency_quotes_service.Storage.Invariant.{Inv}
use currency_quotes_service.Storage.Reading.{get_latest_quote-newest, select_latest-none}
use currency_quotes_service.System.{Reach}
use currency_quotes_service.System.Delivery.{Stored, Stored-Reach, complete_task-Stored}

-- The pair of a stored quote has a latest quote.
select_latest-Stored :
    (id : ℕ) (pair : Text) (rate : Option ℕ) (rate_date fetched_at : ℕ) (d : Db)
    → Stored id pair rate rate_date fetched_at d
    → select_latest pair d.quotes ≢ none
select_latest-Stored id pair rate rate_date fetched_at d (n, cast, found) e = false≢true (
    sym (select_latest-none pair d.quotes e)
    ∙ In-any (λ p. text_eq p.pair pair) (new_quote id pair rate_date fetched_at n) d.quotes
        (find?-In (of_update id) d.quotes _ found) ((text_eq_iff pair pair).1 refl))

module _ (decimals : Decimals) where
  -- An answer that is at least as new as a time, or an error that is not that of a missing quote.
  abbrev pub AsNew : ℕ → Result (Quote decimals.Decimal) → Type 0
  AsNew fetched_at (ok q) = fetched_at ≤ q.fetched_at
  AsNew fetched_at (err e) = is not_found e ≡ false

  as_new :
      (fetched_at : ℕ) (r : Result (Quote decimals.Decimal) × World)
      → ((q : Quote decimals.Decimal) (w : World) → r ≡ (ok q, w) → fetched_at ≤ q.fetched_at)
      → ((e : Error) → r.0 ≡ err e → is not_found e ≡ false)
      → AsNew fetched_at r.0
  as_new fetched_at (ok q, w) f g = f q w refl
  as_new fetched_at (err e, w) f g = g e refl

  read_latest-found :
      (o : Option QuoteRow) (e : Error)
      → o ≢ none
      → read_latest decimals o ≡ err e
      → is not_found e ≡ false
  unfolding read_latest read_quote is
  read_latest-found none e n h = absurd (n refl)
  read_latest-found (some p) e n h = ground arith

  latest_error :
      (pair : Text) (w : World) (e : Error)
      → select_latest pair ((turn w).others w.db).quotes ≢ none
      → (get_latest_quote decimals pair w).0 ≡ err e
      → is not_found e ≡ false
  unfolding get_latest_quote is
  latest_error pair w e n h =
      elim (bind-give-eq_err (wrap (execute (select_latest_call pair))) (read_latest decimals) w e
        h) [
          | inl call ↦ rw (call-eq_err (select_latest_call pair) w e call)
          | inr (o, called, read) ↦
              let c = call-eq_ok (select_latest_call pair) w o _ called in
              let same : select_latest pair ((turn w).others w.db).quotes ≡ o = ground arith in
              read_latest-found o e (λ m. n (same ∙ m)) read
        ]

  latest_answer :
      (claim : UpdateTask) (fetched_at : ℕ) (rate : decimals.Decimal) (rate_date : ℕ) (w w' : World)
      (q : Quote decimals.Decimal)
      → Stored claim.id claim.pair
          (decimals.to_numeric rate)
          rate_date
          fetched_at
          ((turn w).others w.db)
      → get_latest_quote decimals claim.pair w ≡ (ok q, w')
      → fetched_at ≤ q.fetched_at
  unfolding read_quote
  latest_answer claim fetched_at rate rate_date w w' q (n, cast, found) e =
      let (p, m, own, newest, read, _) = get_latest_quote-newest decimals claim.pair w w' q e in
      let bound =
        All-In (λ s. text_eq s.pair claim.pair ≡ true → s.fetched_at ≤ p.fetched_at)
          ((turn w).others w.db).quotes (new_quote claim.id claim.pair rate_date fetched_at n)
          newest (find?-In (of_update claim.id) ((turn w).others w.db).quotes _ found)
          ((text_eq_iff claim.pair claim.pair).1 refl) in
      ground arith

  -- Once CompleteTask has been answered without an error, GetLatestQuote of its pair answers a quote
  -- that was fetched no earlier than the one that it stored, or an error other than that of a missing
  -- quote, after any steps of the service, from tables that keep the invariant.
  pub complete_task-latest :
      (claim : UpdateTask) (rate : decimals.Decimal) (rate_date fetched_at : ℕ) (w w' v : World)
      → Inv w'.db
      → complete_task decimals claim rate rate_date fetched_at w ≡ (ok tt, w')
      → Reach w'.db ((turn v).others v.db)
      → AsNew fetched_at (get_latest_quote decimals claim.pair v).0
  complete_task-latest claim rate rate_date fetched_at w w' v inv e r =
      let stored =
        Stored-Reach claim.id claim.pair (decimals.to_numeric rate) rate_date fetched_at w'.db
          ((turn v).others v.db) inv r
          (complete_task-Stored decimals claim rate rate_date fetched_at w w' e) in
      as_new fetched_at (get_latest_quote decimals claim.pair v)
        (λ q v' k. latest_answer claim fetched_at rate rate_date v v' q stored k)
        (λ x k.
          latest_error claim.pair v x
            (select_latest-Stored claim.id claim.pair (decimals.to_numeric rate) rate_date
              fetched_at ((turn v).others v.db) stored)
            k)
