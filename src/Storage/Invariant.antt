-- ===== src/Storage/Invariant.antt =====
-- What holds of the tables between two calls: the constraints of migrations/ and the two facts on
-- which the reads of repository.go rely, that a quote exists for exactly the tasks that are done,
-- and that it carries the pair of its task.
pub mod Updates
pub mod Inserts
pub mod Claims
pub mod Completion
use currency_quotes_service.Prelude.{
  ℕ, ◌<◌, ◌≡◌, Bool, true, false, ◌&&◌, ◌==◌, Text, text_eq, any, All, Unique,
}
use currency_quotes_service.Domain.Task.{is_done}
use currency_quotes_service.Storage.Schema.{Row, QuoteRow, KeyRow, Db, is_unfinished}
use currency_quotes_service.Storage.Statements.{has_id, has_key, occupies, of_update}
use currency_quotes_service.Storage.Rows.{RowOk}

-- The primary key of quote_updates.
abbrev pub same_id : Row → Row → Bool
same_id x y = has_id x.id y

-- The partial unique index: two unfinished rows of one pair.
abbrev pub rivals : Row → Row → Bool
rivals x y = is_unfinished x.status && occupies x.pair y

-- The primary keys of quotes and of idempotency_keys.
abbrev pub same_update : QuoteRow → QuoteRow → Bool
same_update p q = of_update p.update_id q

abbrev pub same_key : KeyRow → KeyRow → Bool
same_key k l = has_key k.key l

-- The task of this identifier and pair.
abbrev pub is_task : ℕ → Text → Row → Bool
is_task id pair r = has_id id r && text_eq r.pair pair

-- The task that a caller holds stands in the table, with its pair.
abbrev pub Known : ℕ → Text → Db → Type 0
Known id pair d = any (is_task id pair) d.tasks ≡ true

pub record Inv (d : Db) : Type 0 where
  pub ids : Unique same_id d.tasks
  pub one_unfinished : Unique rivals d.tasks
  pub rows : All RowOk d.tasks
  pub finished : All (λ r. is_done r.status ≡ any (of_update r.id) d.quotes) d.tasks
  pub quote_ids : Unique same_update d.quotes
  pub rates : All (λ q. 0 < q.rate) d.quotes
  pub sources : All (λ q. Known q.update_id q.pair d) d.quotes
  pub key_ids : Unique same_key d.keys
  pub bindings : All (λ k. any (has_id k.update_id) d.tasks ≡ true) d.keys
