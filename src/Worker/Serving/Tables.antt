-- ===== src/Worker/Serving/Tables.antt =====
-- The tables of internal/storage/postgres after a claim and its completion with a rate that the column
-- takes: nothing refuses the two, and they leave one task done.
use mathlib.Core.Bool.{false≢true}
use currency_quotes_service.Prelude.{
  ℕ, ◌<◌, ◌≡◌, ◌≢◌, sym, ◌∙◌, Bool, true, false, ◌∷◌, [], ◌++◌, some, any, any-map, In-any, All-In,
  Extends, count_if-zero, Text, arith,
}
use currency_quotes_service.Domain.Task.{UpdateTask}
use currency_quotes_service.Storage.Schema.{Row, Db, scan_task, max_smallint}
use currency_quotes_service.Storage.Statements.{
  has_id, of_update, new_quote, update, oldest_pending, claimed, close_task, insert_quote,
}
use currency_quotes_service.Storage.Invariant.{Inv}
use currency_quotes_service.Storage.Invariant.Claims.{oldest_pending-In, only_row}
use currency_quotes_service.Storage.Guarantee.Statements.{
  claimed-Evolves, claimed-Holds, complete-Keeps,
}
use currency_quotes_service.Worker.Serving.{Served, Served-updates}

-- A quote that the table takes.
insert_quote-taken :
    (id : ℕ) (pair : Text) (n rate_date fetched_at : ℕ) (d : Db)
    → 0 < n
    → any (of_update id) d.quotes ≡ false
    → any (has_id id) d.tasks ≡ true
    → insert_quote id pair (some n) rate_date fetched_at d
      ≡ some (record d { quotes = d.quotes ++ new_quote id pair rate_date fetched_at n ∷ [] })
unfolding insert_quote
insert_quote-taken id pair n rate_date fetched_at d p fresh found = ground arith

module _ (now later : ℕ) (locked : ℕ → Bool) (d : Db) (r : Row) (v : Inv d)
    (e : oldest_pending locked d.tasks ≡ some r) (small : r.attempts < max_smallint) where
  abbrev t : UpdateTask
  t = scan_task (claimed now r)

  abbrev after_claim : Db
  after_claim = (update (has_id r.id) (claimed now) d).1

  abbrev after_close : ℕ × Db
  after_close = close_task later t.id t.attempts after_claim

  -- The claim still holds when it is finalised.
  pub close-held : after_close.0 ≢ 0
  unfolding update
  close-held z =
      absurd (
        false≢true (sym (count_if-zero _ after_claim.tasks z) ∙ (claimed-Holds now locked d r e).1))

  pub insert-taken :
      (n rate_date fetched_at : ℕ)
      → 0 < n
      → (d' : Db) × (insert_quote t.id t.pair (some n) rate_date fetched_at after_close.1 ≡ some d')
        × Inv d'
        × Extends Served d.tasks d'.tasks
  unfolding update
  insert-taken n rate_date fetched_at p =
      let (m, pend, _) = oldest_pending-In locked d.tasks r e in
      let d' : Db = record after_close.1 {
        quotes = d.quotes ++ new_quote t.id t.pair rate_date fetched_at n ∷ [];
      } in
      let stored =
        insert_quote-taken t.id t.pair n rate_date fetched_at after_close.1 p
          (sym (All-In _ d.tasks r v.finished m) ∙ ground (arith, pend))
          (any-map _ _ _ ∙ any-map _ _ d.tasks ∙ In-any _ r d.tasks m (ground arith)) in
      (
        d',
        stored,
        (complete-Keeps later t.id t.attempts t.pair (some n) rate_date fetched_at after_claim d'
            close-held stored (claimed-Holds now locked d r e).0
            (claimed-Evolves now locked d r v e small).inv).inv,
        Served-updates now later r d.tasks pend (only_row r d.tasks v.ids m),
      )
