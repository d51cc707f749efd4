-- ===== src/Storage/Invariant/Updates.antt =====
-- The invariant under an UPDATE whose rows move as the life of a task allows.
use currency_quotes_service.Prelude.{
  ℕ, ◌≡◌, ◌∙◌, Bool, true, List, map, Text, any, All, All-mono, All-map, All-both, Unique,
  Unique-map, any-map_cong, arith,
}
use currency_quotes_service.Domain.Task.{is_done}
use currency_quotes_service.Storage.Schema.{Row, QuoteRow, Db, is_unfinished}
use currency_quotes_service.Storage.Statements.{has_id, touch, update, of_update}
use currency_quotes_service.Storage.Rows.{RowOk, Later}
use currency_quotes_service.Storage.Rows.Moves.{Moves, Moves-touch}
use currency_quotes_service.Storage.Invariant.{Inv, same_id, rivals, is_task, Known}

Later-unfinished :
    (r r' : Row) → Later r r' → is_unfinished r'.status ≡ true → is_unfinished r.status ≡ true
Later-unfinished r r' h e = ground (arith, h.settled)

Later-rivals : (x x' y y' : Row) → Later x x' → Later y y' → rivals x' y' ≡ true → rivals x y ≡ true
Later-rivals x x' y y' h k e =
    ground (arith, h.same_pair, k.same_pair, Later-unfinished x x' h, Later-unfinished y y' k)

Later-same_id :
    (x x' y y' : Row) → Later x x' → Later y y' → same_id x' y' ≡ true → same_id x y ≡ true
Later-same_id x x' y y' h k e = ground (arith, h.same_id, k.same_id)

-- The tables after a change of the rows of quote_updates, place by place.
module _ (g : Row → Row) (d : Db) (moved : All (λ r. Moves r (g r)) d.tasks) where
  later : All (λ r. Later r (g r)) d.tasks
  later = All-mono (λ r. Moves r (g r)) (λ r. Later r (g r)) d.tasks (λ r m. m.later) moved

  pub ids-map : Inv d → Unique same_id (map g d.tasks)
  ids-map v = Unique-map same_id Later g d.tasks Later-same_id later v.ids

  pub one_unfinished-map : Inv d → Unique rivals (map g d.tasks)
  one_unfinished-map v = Unique-map rivals Later g d.tasks Later-rivals later v.one_unfinished

  pub rows-map : Inv d → All RowOk (map g d.tasks)
  rows-map v = All-map RowOk g d.tasks (
      All-both (λ r. Moves r (g r)) RowOk (λ r. RowOk (g r)) d.tasks (λ r m o. m.sound o) moved
        v.rows)

  pub Known-map :
      (id : ℕ) (pair : Text) → any (is_task id pair) (map g d.tasks) ≡ any (is_task id pair) d.tasks
  Known-map id pair = any-map_cong (is_task id pair) (is_task id pair) g d.tasks (
      All-mono (λ r. Later r (g r)) (λ r. is_task id pair (g r) ≡ is_task id pair r) d.tasks
        (λ r l. ground (arith, l.same_id, l.same_pair)) later)

  pub has_id-map : (id : ℕ) → any (has_id id) (map g d.tasks) ≡ any (has_id id) d.tasks
  has_id-map id = any-map_cong (has_id id) (has_id id) g d.tasks (
      All-mono (λ r. Later r (g r)) (λ r. has_id id (g r) ≡ has_id id r) d.tasks
        (λ r l. ground (arith, l.same_id)) later)

  pub sources-map :
      Inv d → All (λ q. any (is_task q.update_id q.pair) (map g d.tasks) ≡ true) d.quotes
  sources-map v =
      All-mono (λ q. Known q.update_id q.pair d)
        (λ q. any (is_task q.update_id q.pair) (map g d.tasks) ≡ true) d.quotes
        (λ q e. Known-map q.update_id q.pair ∙ e) v.sources

  pub bindings-map : Inv d → All (λ k. any (has_id k.update_id) (map g d.tasks) ≡ true) d.keys
  bindings-map v =
      All-mono (λ k. any (has_id k.update_id) d.tasks ≡ true)
        (λ k. any (has_id k.update_id) (map g d.tasks) ≡ true) d.keys
        (λ k e. has_id-map k.update_id ∙ e) v.bindings

-- An UPDATE that closes no row as done.
abbrev pub Allowed : (Row → Row) → Row → Type 0
Allowed set r = Moves r (set r) × (is_done (set r).status ≡ is_done r.status)

finished-touch :
    (test : Row → Bool) (set : Row → Row) (qs : List QuoteRow) (r : Row)
    → (test r ≡ true → Allowed set r)
    → is_done r.status ≡ any (of_update r.id) qs
    → is_done (touch test set r).status ≡ any (of_update (touch test set r).id) qs
finished-touch test set qs r a e = ground (arith, λ (t : test r ≡ true). (a t).0.later.same_id)

pub update-Inv :
    (test : Row → Bool) (set : Row → Row) (d : Db)
    → All (λ r. test r ≡ true → Allowed set r) d.tasks
    → Inv d
    → Inv (update test set d).1
unfolding update
update-Inv test set d allowed v = record {
  ids = ids-map g d moved v;
  one_unfinished = one_unfinished-map g d moved v;
  rows = rows-map g d moved v;
  finished =
      All-map (λ r. is_done r.status ≡ any (of_update r.id) d.quotes) g d.tasks
        (All-both (λ r. test r ≡ true → Allowed set r)
          (λ r. is_done r.status ≡ any (of_update r.id) d.quotes)
          (λ r. is_done (g r).status ≡ any (of_update (g r).id) d.quotes) d.tasks
          (finished-touch test set d.quotes) allowed v.finished);
  quote_ids = v.quote_ids;
  rates = v.rates;
  sources = sources-map g d moved v;
  key_ids = v.key_ids;
  bindings = bindings-map g d moved v;
}
  where
    g : Row → Row
    g = touch test set

    moved : All (λ r. Moves r (g r)) d.tasks
    moved =
        All-mono (λ r. test r ≡ true → Allowed set r) (λ r. Moves r (g r)) d.tasks
          (λ r a. Moves-touch test set r (λ t. (a t).0)) allowed
