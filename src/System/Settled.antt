-- ===== src/System/Settled.antt =====
-- What clients see over time: the answer to a task that is finished, and the task of an accepted post.
use currency_quotes_service.Prelude.{
  ℕ, ◌≡◌, refl, sym, ap, subst, ◌∙◌, inl, inr, false, Option, none, some, any, find?, find?-some,
  find?-none, find?-In, find?-Extends, find?_nothing, All-In, Option-cases, arith,
}
use currency_quotes_service.Domain.Errors.{Result, ok}
use currency_quotes_service.Domain.Task.{UpdateTask, TaskDetails, is_done}
use currency_quotes_service.Storage.Schema.{Row, QuoteRow, Db, is_unfinished, scan_task}
use currency_quotes_service.Storage.Statements.{has_id, of_update, select_task}
use currency_quotes_service.Storage.World.{World, turn, wrap, execute}
use currency_quotes_service.Storage.World.Laws.{call-eq_ok, bind-give-eq_ok}
use currency_quotes_service.Storage.Repository.{Decimals, get_task, read_details, select_task_call}
use currency_quotes_service.Storage.Reading.{read_details-Reads}
use currency_quotes_service.Storage.Rows.{Later}
use currency_quotes_service.Storage.Invariant.{Inv}
use currency_quotes_service.Storage.Progress.{Progress}
use currency_quotes_service.System.{Reach}
use currency_quotes_service.System.Steps.{Reach-Evolves}

quote_kept :
    (d d' : Db) (r : Row) (o : Option QuoteRow)
    → Inv d
    → Inv d'
    → Progress d d'
    → find? (has_id r.id) d.tasks ≡ some r
    → find? (has_id r.id) d'.tasks ≡ some r
    → find? (of_update r.id) d.quotes ≡ o
    → find? (of_update r.id) d'.quotes ≡ o
quote_kept d d' r (some q) v v' p m m' e =
    let (q', found, same) =
      find?-Extends (of_update r.id) (λ (p q : QuoteRow). q ≡ p) d.quotes d'.quotes q
        (λ x y s. ap (λ z. of_update r.id z) s) p.quotes e in
    found ∙ ap some same
quote_kept d d' r none v v' p m m' e =
    let now =
      All-In (λ s. is_done s.status ≡ any (of_update s.id) d.quotes) d.tasks r v.finished
        (find?-In (has_id r.id) d.tasks r m) in
    let later =
      All-In (λ s. is_done s.status ≡ any (of_update s.id) d'.quotes) d'.tasks r v'.finished
        (find?-In (has_id r.id) d'.tasks r m') in
    find?_nothing (of_update r.id) d'.quotes
      (ground (arith, find?-none (of_update r.id) d.quotes e))

-- A finished task and its quote are read the same from then on.
select_task-settled :
    (id : ℕ) (d d' : Db) (t : UpdateTask) (o : Option QuoteRow)
    → Inv d
    → Reach d d'
    → select_task id d ≡ some (t, o)
    → is_unfinished t.status ≡ false
    → select_task id d' ≡ some (t, o)
unfolding select_task
select_task-settled id d d' t o v r e f = elim (Option-cases (find? (has_id id) d.tasks)) [
  | inl missing ↦ ground (arith, missing)
  | inr (x, found) ↦
      let g = Reach-Evolves r v in
      let own : x.id ≡ id = ground (arith, find?-some (has_id id) d.tasks x found) in
      let (y, found', l) =
        find?-Extends (has_id id) Later d.tasks d'.tasks x (λ a b l. ground (arith, l.same_id))
          g.progress.tasks found in
      let both : (t ≡ scan_task x) × (find? (of_update x.id) d.quotes ≡ o) =
        ground (arith, found) in
      let same : y ≡ x = l.settled (ground (arith, both.0)) in
      let stays : find? (has_id id) d'.tasks ≡ some x = found' ∙ ap some same in
      let kept =
        quote_kept d d' x o v g.inv g.progress
          (subst (λ n. find? (has_id n) d.tasks ≡ some x) (sym own) found)
          (subst (λ n. find? (has_id n) d'.tasks ≡ some x) (sym own) stays) both.1 in
      let kept' = subst (λ n. find? (of_update n) d'.quotes ≡ o) own kept in
      rw (stays, select_task) (rw kept' (rw both.0 refl))
]

module _ (decimals : Decimals) where
  pub get_task-read :
      (id : ℕ) (w w' : World) (details : TaskDetails decimals.Decimal)
      → get_task decimals id w ≡ (ok details, w')
      → (f : Option (UpdateTask × Option QuoteRow)) × (select_task id ((turn w).others w.db) ≡ f)
        × (read_details decimals f ≡ ok details)
        × (w'.db ≡ (turn w).others w.db)
  unfolding get_task
  get_task-read id w w' details e =
      let (f, called, read) =
        bind-give-eq_ok (wrap (execute (select_task_call id))) (read_details decimals) w details w'
          e in
      let c = call-eq_ok (select_task_call id) w f w' called in
      (f, ground arith, read, ground arith)

  pub task_of :
      (f : Option (UpdateTask × Option QuoteRow)) (details : TaskDetails decimals.Decimal)
      → read_details decimals f ≡ ok details
      → (t : UpdateTask) × (o : Option QuoteRow) × (f ≡ some (t, o)) × (details.task ≡ t)
  unfolding read_details
  task_of none details e = cc
  task_of (some (t, o)) details e = (t, o, refl, (read_details-Reads decimals t o details e).0)

  -- Once GetTask has answered with a finished task, every later answer for the identifier is the same,
  -- its quote included, after any steps of the service, from tables that keep the invariant.
  pub get_task-settled :
      (id : ℕ) (w w' v v' : World) (before after : TaskDetails decimals.Decimal)
      → Inv ((turn w).others w.db)
      → get_task decimals id w ≡ (ok before, w')
      → is_unfinished before.task.status ≡ false
      → Reach w'.db ((turn v).others v.db)
      → get_task decimals id v ≡ (ok after, v')
      → after ≡ before
  get_task-settled id w w' v v' before after inv e f r k =
      let (found, read, details, end) = get_task-read id w w' before e in
      let (found', read', details', _) = get_task-read id v v' after k in
      let (t, o, shape, task) = task_of found before details in
      let kept =
        select_task-settled id ((turn w).others w.db) ((turn v).others v.db) t o inv (rw end at r)
          (read ∙ shape) (rw task at f) in
      let same : found' ≡ found = sym read' ∙ kept ∙ sym shape in
      let answers : ◌≡◌ {A = Result (TaskDetails decimals.Decimal)} (ok after) (ok before) =
        sym details' ∙ ap (read_details decimals) same ∙ details in
      cc
