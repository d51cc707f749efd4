-- ===== src/Storage/Reading.antt =====
-- Laws of `GetTask` and `GetLatestQuote` in internal/storage/postgres/repository.go.
use currency_quotes_service.Prelude.{
  ℕ, ◌≤◌, ◌≡◌, refl, inl, inr, Bool, true, false, not, List, [], ◌∷◌, Option, none, some, Text,
  text_eq, text_eq_iff, any, find?, find?-some, find?-none, find?-any, All, All-In, All-mono,
  All-any-false, any-In, find?-In, In, Option-cases, arith,
}
use currency_quotes_service.Domain.Errors.{Result, ok, err}
use currency_quotes_service.Domain.Task.{UpdateTask, Quote, TaskDetails, is_done, is_failed}
use currency_quotes_service.Storage.Schema.{Row, QuoteRow, Db, scan_task}
use currency_quotes_service.Storage.Statements.{has_id, of_update, select_task, select_latest}
use currency_quotes_service.Storage.World.{World, turn, wrap, execute}
use currency_quotes_service.Storage.World.Laws.{call-eq_ok, bind-give-eq_ok}
use currency_quotes_service.Storage.Repository.{
  Decimals, with_quote, get_task, get_latest_quote, read_details, read_latest, read_quote,
  select_task_call, select_latest_call,
}
use currency_quotes_service.Storage.Rows.{RowOk}
use currency_quotes_service.Storage.Invariant.{Inv, Known, is_task}
use currency_quotes_service.Storage.Invariant.Claims.{only_row}

pub select_latest-none :
    (pair : Text) (qs : List QuoteRow)
    → select_latest pair qs ≡ none
    → any (λ p. text_eq p.pair pair) qs ≡ false
unfolding select_latest any
select_latest-none pair [] e = refl
select_latest-none pair (p ∷ qs) e = ground (arith, select_latest-none pair qs)

select_latest-newest :
    (pair : Text) (qs : List QuoteRow) (q : QuoteRow)
    → select_latest pair qs ≡ some q
    → All (λ p. text_eq p.pair pair ≡ true → p.fetched_at ≤ q.fetched_at) qs
unfolding select_latest
select_latest-newest pair [] q e = tt
select_latest-newest pair (p ∷ qs) q e = elim (Option-cases (select_latest pair qs)) [
  | inl nothing ↦ (
    ground (arith, nothing),
    All-mono (λ s. text_eq s.pair pair ≡ false)
        (λ s. text_eq s.pair pair ≡ true → s.fetched_at ≤ q.fetched_at) qs (λ s f h. ground arith)
        (All-any-false (λ s. text_eq s.pair pair) qs (select_latest-none pair qs nothing)),
  )
  | inr (o, found) ↦ (
    ground (arith, found),
    All-mono (λ s. text_eq s.pair pair ≡ true → s.fetched_at ≤ o.fetched_at)
        (λ s. text_eq s.pair pair ≡ true → s.fetched_at ≤ q.fetched_at) qs
        (λ s h f. ground (arith, found, h f)) (select_latest-newest pair qs o found),
  )
]

select_latest-In :
    (pair : Text) (qs : List QuoteRow) (q : QuoteRow)
    → select_latest pair qs ≡ some q
    → In q qs × (q.pair ≡ pair)
unfolding select_latest
select_latest-In pair [] q e = cc
select_latest-In pair (p ∷ qs) q e = elim (Option-cases (select_latest pair qs)) [
  | inl nothing ↦ ground (arith, nothing, text_eq_iff p.pair pair)
  | inr (o, found) ↦
      ground (arith, found, text_eq_iff p.pair pair, select_latest-In pair qs o found)
]

module _ (decimals : Decimals) where
  -- `GetLatestQuote` answers with a stored quote of the pair, none of which was fetched later, its
  -- rate as the decimal library reads it; it changes nothing.
  pub get_latest_quote-newest :
      (pair : Text) (w w' : World) (q : Quote decimals.Decimal)
      → get_latest_quote decimals pair w ≡ (ok q, w')
      → (p : QuoteRow) × In p ((turn w).others w.db).quotes
        × (p.pair ≡ pair)
        × All
            (λ s. text_eq s.pair pair ≡ true → s.fetched_at ≤ p.fetched_at)
            ((turn w).others w.db).quotes
        × (read_quote decimals p ≡ ok q)
        × (w'.db ≡ (turn w).others w.db)
  unfolding get_latest_quote read_latest
  get_latest_quote-newest pair w w' q e =
      let (o, called, read) =
        bind-give-eq_ok (wrap (execute (select_latest_call pair))) (read_latest decimals) w q w'
          e in
      latest_row o read (call-eq_ok (select_latest_call pair) w o w' called)
    where
      d : Db
      d = (turn w).others w.db

      latest_row :
          (o : Option QuoteRow)
          → read_latest decimals o ≡ ok q
          → ◌≡◌ {A = Option (Option QuoteRow × Db)}
              (some (select_latest pair d.quotes, d))
              (some (o, w'.db))
          → (p : QuoteRow) × In p d.quotes
            × (p.pair ≡ pair)
            × All (λ s. text_eq s.pair pair ≡ true → s.fetched_at ≤ p.fetched_at) d.quotes
            × (read_quote decimals p ≡ ok q)
            × (w'.db ≡ d)
      latest_row none r c = cc
      latest_row (some p) r c =
          let found : select_latest pair d.quotes ≡ some p = ground arith in
          (
            p,
            (select_latest-In pair d.quotes p found).0,
            (select_latest-In pair d.quotes p found).1,
            select_latest-newest pair d.quotes p found,
            r,
            ground arith,
          )

-- The task and the quote that `GetTask` reads agree: there is a quote for a task that is done and for
-- no other, of the same identifier and pair, and a reason for a task that failed and for no other.
abbrev is_some : Option QuoteRow → Bool
is_some none = false
is_some (some q) = true

abbrev is_empty : Text → Bool
is_empty [] = true
is_empty (c ∷ s) = false

abbrev pub OwnQuote : UpdateTask → Option QuoteRow → Type 0
OwnQuote t none = Unit
OwnQuote t (some q) = (q.update_id ≡ t.id) × (q.pair ≡ t.pair)

pub record Consistent (t : UpdateTask) (o : Option QuoteRow) : Type 0 where
  pub quoted : is_done t.status ≡ is_some o
  pub own_quote : OwnQuote t o
  pub reasoned : is_failed t.status ≡ not (is_empty t.error)

own_row :
    (d : Db) (r : Row) (q : QuoteRow)
    → Inv d
    → In r d.tasks
    → In q d.quotes
    → q.update_id ≡ r.id
    → q.pair ≡ r.pair
own_row d r q v m mq e =
    let (s, ms, h) =
      any-In (is_task q.update_id q.pair) d.tasks
        (All-In (λ p. Known p.update_id p.pair d) d.quotes q v.sources mq) in
    let same : s ≡ r =
      All-In (λ x. has_id r.id x ≡ true → x ≡ r) d.tasks s (only_row r d.tasks v.ids m) ms
        (ground arith) in
    ground (arith, text_eq_iff s.pair q.pair)

row-Consistent :
    (d : Db) (r : Row) (o : Option QuoteRow)
    → Inv d
    → In r d.tasks
    → find? (of_update r.id) d.quotes ≡ o
    → Consistent (scan_task r) o
row-Consistent d r none v m e =
    let sound = All-In RowOk d.tasks r v.rows m in
    let done =
      All-In (λ s. is_done s.status ≡ any (of_update s.id) d.quotes) d.tasks r v.finished m in
    ground (arith, sound, find?-none (of_update r.id) d.quotes e)
row-Consistent d r (some q) v m e =
    let sound = All-In RowOk d.tasks r v.rows m in
    let done =
      All-In (λ s. is_done s.status ≡ any (of_update s.id) d.quotes) d.tasks r v.finished m in
    let same : q.update_id ≡ r.id = ground (arith, find?-some (of_update r.id) d.quotes q e) in
    let pairs : q.pair ≡ r.pair = own_row d r q v m (find?-In (of_update r.id) d.quotes q e) same in
    ground (arith, sound, find?-any (of_update r.id) d.quotes q e)

pub select_task-Consistent :
    (id : ℕ) (d : Db) (t : UpdateTask) (o : Option QuoteRow)
    → Inv d
    → select_task id d ≡ some (t, o)
    → (t.id ≡ id) × Consistent t o
unfolding select_task
select_task-Consistent id d t o v e = elim (Option-cases (find? (has_id id) d.tasks)) [
  | inl missing ↦ ground (arith, missing)
  | inr (r, found) ↦
      let own : r.id ≡ id = ground (arith, find?-some (has_id id) d.tasks r found) in
      let both : (t ≡ scan_task r) × (find? (of_update r.id) d.quotes ≡ o) =
        ground (arith, found) in
      rw both.0 (own, row-Consistent d r o v (find?-In (has_id id) d.tasks r found) both.1)
]

module _ (decimals : Decimals) where
  -- The details carry a quote as the row does, with its rate as the decimal library reads it.
  abbrev pub Reads : TaskDetails decimals.Decimal → Option QuoteRow → Type 0
  Reads details none = details.quote ≡ none
  Reads details (some p) =
      (q : Quote decimals.Decimal) × (details.quote ≡ some q) × (read_quote decimals p ≡ ok q)

  with_quote-eq_ok :
      (t : UpdateTask) (r : Result (Quote decimals.Decimal))
      (details : TaskDetails decimals.Decimal)
      → with_quote decimals t r ≡ ok details
      → (details.task ≡ t) × ((q : Quote decimals.Decimal) × (details.quote ≡ some q) × (r ≡ ok q))
  with_quote-eq_ok t (ok q) details e = (ground arith, (q, ground arith, refl))
  with_quote-eq_ok t (err x) details e = cc

  pub read_details-Reads :
      (t : UpdateTask) (o : Option QuoteRow) (details : TaskDetails decimals.Decimal)
      → read_details decimals (some (t, o)) ≡ ok details
      → (details.task ≡ t) × Reads details o
  unfolding read_details
  read_details-Reads t none details e = ground arith
  read_details-Reads t (some p) details e = with_quote-eq_ok t (read_quote decimals p) details e

  -- From tables that keep the invariant, `GetTask` answers with the task of the identifier and, for
  -- one that is done and for no other, with its quote; a task that failed, and no other, has a
  -- reason. It changes nothing.
  pub get_task-Consistent :
      (id : ℕ) (w w' : World) (details : TaskDetails decimals.Decimal)
      → Inv ((turn w).others w.db)
      → get_task decimals id w ≡ (ok details, w')
      → (o : Option QuoteRow) × (details.task.id ≡ id)
        × Consistent details.task o
        × Reads details o
        × (w'.db ≡ (turn w).others w.db)
  unfolding get_task read_details
  get_task-Consistent id w w' details v e =
      let (found, called, read) =
        bind-give-eq_ok (wrap (execute (select_task_call id))) (read_details decimals) w details w'
          e in
      read_row found read (call-eq_ok (select_task_call id) w found w' called)
    where
      d : Db
      d = (turn w).others w.db

      read_row :
          (f : Option (UpdateTask × Option QuoteRow))
          → read_details decimals f ≡ ok details
          → ◌≡◌ {A = Option (Option (UpdateTask × Option QuoteRow) × Db)}
              (some (select_task id d, d))
              (some (f, w'.db))
          → (o : Option QuoteRow) × (details.task.id ≡ id)
            × Consistent details.task o
            × Reads details o
            × (w'.db ≡ d)
      read_row none r c = cc
      read_row (some (t, o)) r c =
          let (own, consistent) = select_task-Consistent id d t o v (ground arith) in
          let (task, reads) = read_details-Reads t o details r in
          (o, rw task own, rw task consistent, reads, ground arith)
