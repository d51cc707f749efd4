-- ===== src/Provider.antt =====
-- internal/provider: what is asked of an upstream of exchange rates, and when it is asked again.
pub mod Client
pub mod Classification
pub mod Retrier
pub mod Texts
pub mod Rates
pub mod Attempts
use currency_quotes_service.Prelude.{ℕ}

-- `Rate`: a value, and the day that it was published for.
pub record Rate (Decimal : Type 0) : Type 0 where
  pub value : Decimal
  pub date : ℕ
