-- ===== src/Storage/Invariant/Inserts.antt =====
-- The invariant under the statements that insert a task or bind a key.
use currency_quotes_service.Prelude.{
  ℕ, ◌≡◌, refl, Bool, true, false, List, [], ◌∷◌, ◌++◌, map, some, ◌==◌, Text, text_eq_iff, any,
  find?, All, All-mono, All-every, All-append, All-map, Unique-snoc, Unique-map, any_mono,
  any-append, any-append_true, find?-none, find?-some, find?-holds, Option-cases, Bool-cases, inl,
  inr, arith,
}
use currency_quotes_service.Domain.Task.{UpdateTask, is_done}
use currency_quotes_service.Storage.Schema.{Row, QuoteRow, KeyRow, Db, has_pair_shape}
use currency_quotes_service.Storage.Statements.{
  has_id, has_key, of_update, occupies, new_row, insert_task, rebind, bind_key,
}
use currency_quotes_service.Storage.Rows.{RowOk}
use currency_quotes_service.Storage.Invariant.{Inv, same_id, same_key, rivals, is_task, Known}

-- No quote stands for a task that is not there.
no_quote :
    (id : ℕ) (rows : List Row) (qs : List QuoteRow)
    → any (has_id id) rows ≡ false
    → All (λ q. any (is_task q.update_id q.pair) rows ≡ true) qs
    → any (of_update id) qs ≡ false
unfolding any
no_quote id rows [] e h = refl
no_quote id rows (q ∷ qs) e h = elim (Bool-cases (q.update_id == id)) [
  | inr other ↦ ground (arith, no_quote id rows qs e h.1)
  | inl same ↦ ground (
    arith,
    any_mono (is_task q.update_id q.pair) (has_id id) rows
        (All-every (λ r. is_task q.update_id q.pair r ≡ true → has_id id r ≡ true) rows
          (λ r t. ground arith))
        e,
  )
]

module _ (now fresh : ℕ) (pair : Text) (d : Db) where
  abbrev with_row : Db
  with_row = record d { tasks = d.tasks ++ new_row now fresh pair ∷ [] }

  new_row-Inv :
      has_pair_shape pair ≡ true
      → any (occupies pair) d.tasks ≡ false
      → any (has_id fresh) d.tasks ≡ false
      → Inv d
      → Inv with_row
  new_row-Inv shaped free absent v = record {
    ids = Unique-snoc same_id d.tasks (new_row now fresh pair) v.ids (
        any_mono (λ x. same_id x (new_row now fresh pair)) (has_id fresh) d.tasks
          (All-every (λ x. same_id x (new_row now fresh pair) ≡ true → has_id fresh x ≡ true)
            d.tasks (λ x e. ground arith))
          absent);
    one_unfinished = Unique-snoc rivals d.tasks (new_row now fresh pair) v.one_unfinished (
        any_mono (λ x. rivals x (new_row now fresh pair)) (occupies pair) d.tasks
          (All-every (λ x. rivals x (new_row now fresh pair) ≡ true → occupies pair x ≡ true)
            d.tasks (λ x e. ground (arith, text_eq_iff pair x.pair, text_eq_iff x.pair pair)))
          free);
    rows = All-append RowOk d.tasks _ v.rows (ground arith, tt);
    finished =
        All-append (λ r. is_done r.status ≡ any (of_update r.id) d.quotes) d.tasks _ v.finished
          (ground (arith, no_quote fresh d.tasks d.quotes absent v.sources), tt);
    quote_ids = v.quote_ids;
    rates = v.rates;
    sources =
        All-mono (λ q. Known q.update_id q.pair d) (λ q. Known q.update_id q.pair with_row) d.quotes
          (λ q. any-append_true (is_task q.update_id q.pair) d.tasks _) v.sources;
    key_ids = v.key_ids;
    bindings =
        All-mono (λ k. any (has_id k.update_id) d.tasks ≡ true)
          (λ k. any (has_id k.update_id) with_row.tasks ≡ true) d.keys
          (λ k. any-append_true (has_id k.update_id) d.tasks _) v.bindings;
  }

  new_row-Known : Known fresh pair with_row
  unfolding any
  new_row-Known = ground (
    arith,
    any-append (is_task fresh pair) d.tasks (new_row now fresh pair ∷ []),
    text_eq_iff pair pair,
  )

  -- Whether the task is new or was waiting, the tables keep the invariant and hold it.
  pub insert_task-Inv :
      (t : UpdateTask) (d' : Db)
      → insert_task now fresh pair d ≡ some (t, d')
      → Inv d
      → Inv d' × Known t.id pair d'
  unfolding insert_task
  insert_task-Inv t d' e v = elim (Option-cases (find? (occupies pair) d.tasks)) [
    | inl free ↦
        ground (arith, free, new_row-Inv, new_row-Known, find?-none (occupies pair) d.tasks free)
    | inr (r, found) ↦ ground (
      arith,
      found,
      find?-some (occupies pair) d.tasks r found,
      find?-holds (occupies pair) (is_task r.id pair) d.tasks r found,
    )
  ]

-- The binding of a key.
module _ (now ttl key id : ℕ) (d : Db) where
  same_key-rebind :
      (x x' y y' : KeyRow)
      → x'.key ≡ x.key
      → y'.key ≡ y.key
      → same_key x' y' ≡ true
      → same_key x y ≡ true
  same_key-rebind x x' y y' h k e = ground arith

  rebind-Inv :
      any (has_id id) d.tasks ≡ true
      → Inv d
      → Inv (record d { keys = map (rebind now key id) d.keys })
  rebind-Inv known v = record {
    ids = v.ids;
    one_unfinished = v.one_unfinished;
    rows = v.rows;
    finished = v.finished;
    quote_ids = v.quote_ids;
    rates = v.rates;
    sources = v.sources;
    key_ids =
        Unique-map same_key (λ k l. l.key ≡ k.key) (rebind now key id) d.keys same_key-rebind
          (All-every (λ k. (rebind now key id k).key ≡ k.key) d.keys (λ k. ground arith)) v.key_ids;
    bindings =
        All-map (λ k. any (has_id k.update_id) d.tasks ≡ true) (rebind now key id) d.keys
          (All-mono (λ k. any (has_id k.update_id) d.tasks ≡ true)
            (λ k. any (has_id (rebind now key id k).update_id) d.tasks ≡ true) d.keys
            (λ k b. ground arith) v.bindings);
  }

  new_key-Inv :
      any (has_id id) d.tasks ≡ true
      → any (has_key key) d.keys ≡ false
      → Inv d
      → Inv (record d {
        keys = d.keys ++ record { key = key; update_id = id; created_at = now } ∷ [];
      })
  new_key-Inv known free v = record {
    ids = v.ids;
    one_unfinished = v.one_unfinished;
    rows = v.rows;
    finished = v.finished;
    quote_ids = v.quote_ids;
    rates = v.rates;
    sources = v.sources;
    key_ids = Unique-snoc same_key d.keys _ v.key_ids (
        any_mono (λ k. key == k.key) (has_key key) d.keys
          (All-every (λ k. (key == k.key) ≡ true → has_key key k ≡ true) d.keys
            (λ k e. ground arith))
          free);
    bindings =
        All-append (λ k. any (has_id k.update_id) d.tasks ≡ true) d.keys _ v.bindings (known, tt);
  }

  pub bind_key-Inv :
      (b : Bool) (d' : Db) → bind_key now ttl key id d ≡ some (b, d') → Inv d → Inv d'
  unfolding bind_key
  bind_key-Inv b d' e v = elim (Option-cases (find? (has_key key) d.keys)) [
    | inl free ↦ ground (arith, free, new_key-Inv, find?-none (has_key key) d.keys free)
    | inr (k, found) ↦ ground (arith, found, rebind-Inv)
  ]
