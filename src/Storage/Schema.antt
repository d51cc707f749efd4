-- ===== src/Storage/Schema.antt =====
-- The tables of migrations/000001_init.up.sql and 000002_idempotency.up.sql. A table is the list of
-- its rows in the order of insertion. A rate is kept as numeric(20,10) keeps it: as a count of
-- 10^-10. `smallint` is bounded where it is written.
use currency_quotes_service.Prelude.{
  ℕ, Bool, true, false, ◌&&◌, List, [], ◌∷◌, Option, none, some, ◌==◌, leb, Text,
}
use currency_quotes_service.Domain.Task.{Status, UpdateTask}

-- A row of quote_updates; `error` is NULL or a text.
pub record Row : Type 0 where
  pub id : ℕ
  pub pair : Text
  pub status : Status
  pub attempts : ℕ
  pub error : Option Text
  pub created_at : ℕ
  pub updated_at : ℕ

-- A row of quotes.
pub record QuoteRow : Type 0 where
  pub update_id : ℕ
  pub pair : Text
  pub rate : ℕ
  pub rate_date : ℕ
  pub fetched_at : ℕ

-- A row of idempotency_keys.
pub record KeyRow : Type 0 where
  pub key : ℕ
  pub update_id : ℕ
  pub created_at : ℕ

pub record Db : Type 0 where
  pub tasks : List Row
  pub quotes : List QuoteRow
  pub keys : List KeyRow

abbrev is_capital : ℕ → Bool
is_capital c = leb b'A' c && leb c b'Z'

-- CHECK (pair ~ '^[A-Z]{3}/[A-Z]{3}$').
unfoldable pub has_pair_shape : Text → Bool
has_pair_shape (a ∷ b ∷ c ∷ s ∷ d ∷ e ∷ f ∷ []) =
    is_capital a
    && is_capital b
    && is_capital c
    && s == b'/'
    && is_capital d
    && is_capital e
    && is_capital f
has_pair_shape _ = false

-- status IN ('pending', 'in_progress'): the predicate of the partial unique index.
abbrev pub is_unfinished : Status → Bool
is_unfinished Status.pending = true
is_unfinished Status.in_progress = true
is_unfinished _ = false

-- The largest value of a smallint.
abbrev pub max_smallint : ℕ
max_smallint = 32767

abbrev coalesce : Option Text → Text
coalesce none = []
coalesce (some e) = e

-- `scanTask`: the columns as every statement that answers with a task selects them,
-- COALESCE(error, '') among them.
abbrev pub scan_task : Row → UpdateTask
scan_task r = record {
  id = r.id;
  pair = r.pair;
  status = r.status;
  attempts = r.attempts;
  error = coalesce r.error;
  created_at = r.created_at;
  updated_at = r.updated_at;
}
