-- ===== src/Storage/Rows/Moves.antt =====
-- The assignments of the UPDATE statements, one row at a time.
use currency_quotes_service.Prelude.{ℕ, ◌<◌, ◌≡◌, Bool, true, ◌∷◌, none, some, Text, arith}
use currency_quotes_service.Domain.Task.{is_pending, is_in_progress, pending, done, failed}
use currency_quotes_service.Storage.Schema.{Row, max_smallint}
use currency_quotes_service.Storage.Statements.{claimed, touch}
use currency_quotes_service.Storage.Rows.{RowOk, Later, Later-refl}

-- One row before and after a statement: later in its life, and still as it may be.
pub record Moves (r r' : Row) : Type 0 where
  pub later : Later r r'
  pub sound : RowOk r → RowOk r'

pub Moves-refl : (r : Row) → Moves r r
Moves-refl r = record { later = Later-refl r; sound = λ h. h }

pub Moves-touch :
    (test : Row → Bool) (set : Row → Row) (r : Row)
    → (test r ≡ true → Moves r (set r))
    → Moves r (touch test set r)
Moves-touch test set r h = ground (arith, Moves-refl r)

pub Moves-claim :
    (now : ℕ) (r : Row)
    → is_pending r.status ≡ true
    → r.attempts < max_smallint
    → Moves r (claimed now r)
Moves-claim now r p b = ground arith

pub Moves-release :
    (now : ℕ) (r : Row)
    → is_in_progress r.status ≡ true
    → Moves r (record r { status = pending; updated_at = now })
Moves-release now r p = ground arith

pub Moves-fail :
    (now : ℕ) (c : ℕ) (reason : Text) (r : Row)
    → is_in_progress r.status ≡ true
    → Moves r (record r { status = failed; error = some (c ∷ reason); updated_at = now })
Moves-fail now c reason r p = ground arith

pub Moves-close :
    (now : ℕ) (r : Row)
    → is_in_progress r.status ≡ true
    → Moves r (record r { status = done; error = none; updated_at = now })
Moves-close now r p = ground arith
