-- ===== src/Domain/Task.antt =====
-- internal/domain/task.go and quote.go. A UUID is a number, a time is a count of the database's
-- clock units, and a date a count of days.
use currency_quotes_service.Prelude.{ℕ, Bool, true, false, Option, Text}

pub data Status : Type 0 where
  pending in_progress done failed : Status

-- `task.Status == status` against each constant.
abbrev pub is_pending : Status → Bool
is_pending pending = true
is_pending _ = false

abbrev pub is_in_progress : Status → Bool
is_in_progress in_progress = true
is_in_progress _ = false

abbrev pub is_done : Status → Bool
is_done done = true
is_done _ = false

abbrev pub is_failed : Status → Bool
is_failed failed = true
is_failed _ = false

pub record UpdateTask : Type 0 where
  pub id : ℕ
  pub pair : Text
  pub status : Status
  pub attempts : ℕ
  pub error : Text
  pub created_at : ℕ
  pub updated_at : ℕ

-- The type of rates is that of the decimal library.
pub record Quote (Decimal : Type 0) : Type 0 where
  pub update_id : ℕ
  pub pair : Text
  pub rate : Decimal
  pub rate_date : ℕ
  pub fetched_at : ℕ

pub record TaskDetails (Decimal : Type 0) : Type 0 where
  pub task : UpdateTask
  pub quote : Option (Quote Decimal)
