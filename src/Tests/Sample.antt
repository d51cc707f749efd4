-- ===== src/Tests/Sample.antt =====
-- A database with one task of each kind that matters, and a world that leaves it alone.
use currency_quotes_service.Prelude.{
  ℕ, ◌+◌, false, [], ◌∷◌, none, some, Text, codes, text_eq, any, arith,
}
use currency_quotes_service.Domain.Task.{UpdateTask, pending, in_progress, done}
use currency_quotes_service.Storage.Schema.{Row, QuoteRow, KeyRow, Db, scan_task, has_pair_shape}
use currency_quotes_service.Storage.World.{World, Turn, answered}
use currency_quotes_service.Storage.Repository.{Decimals}
use currency_quotes_service.Storage.Invariant.{Inv}
use currency_quotes_service.Storage.Guarantee.{Rely, Evolves-refl}

abbrev pub eur_mxn : Text
eur_mxn = codes "EUR/MXN"

abbrev pub usd_eur : Text
usd_eur = codes "USD/EUR"

abbrev pub running_row : Row
running_row = record {
  id = 1;
  pair = eur_mxn;
  status = in_progress;
  attempts = 1;
  error = none;
  created_at = 10;
  updated_at = 20;
}

abbrev pub waiting_row : Row
waiting_row = record {
  id = 2;
  pair = usd_eur;
  status = pending;
  attempts = 0;
  error = none;
  created_at = 30;
  updated_at = 30;
}

abbrev pub done_row : Row
done_row = record {
  id = 3;
  pair = eur_mxn;
  status = done;
  attempts = 1;
  error = none;
  created_at = 1;
  updated_at = 5;
}

abbrev pub old_quote : QuoteRow
old_quote = record {
  update_id = 3;
  pair = eur_mxn;
  rate = 201394500000;
  rate_date = 4;
  fetched_at = 5;
}

abbrev pub bound_key : KeyRow
bound_key = record { key = 9; update_id = 3; created_at = 50 }

abbrev pub busy : Db
busy = record {
  tasks = running_row ∷ waiting_row ∷ done_row ∷ [];
  quotes = old_quote ∷ [];
  keys = bound_key ∷ [];
}

pub busy-Inv : Inv busy
unfolding any text_eq has_pair_shape
busy-Inv = ground arith

abbrev pub quiet : ℕ → Turn
quiet n = record {
  others = λ d. d;
  now = 100 + n;
  fresh = 7 + n;
  locked = λ _. false;
  fate = answered;
}

pub quiet-Rely : Rely quiet
quiet-Rely n d v = Evolves-refl d v

abbrev pub start : World
start = record { db = busy; script = quiet; at = 0 }

abbrev pub claim : UpdateTask
claim = scan_task running_row

-- Rates as counts of 10^-10.
abbrev pub exact : Decimals
exact = record { Decimal = ℕ; to_numeric = λ n. some n; of_numeric = λ n. some n }
