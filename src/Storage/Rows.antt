-- ===== src/Storage/Rows.antt =====
-- What a row of quote_updates may be, and how it may change: the life of one task.
pub mod Moves
use currency_quotes_service.Prelude.{
  ℕ, ◌+◌, ◌*◌, ◌≤◌, ◌≡◌, refl, ◌∙◌, Bool, true, false, [], ◌∷◌, Option, none, some, Text, arith,
}
use currency_quotes_service.Domain.Task.{
  is_in_progress, is_done, is_failed, pending, in_progress, done, failed, Status,
}
use currency_quotes_service.Storage.Schema.{Row, has_pair_shape, is_unfinished, max_smallint}

abbrev pub has_reason : Option Text → Bool
has_reason none = false
has_reason (some []) = false
has_reason (some (c ∷ s)) = true

-- A row by itself: the CHECK constraints of the table, a reason on exactly the failed rows, and a
-- claim behind every row that runs or is done.
pub record RowOk (r : Row) : Type 0 where
  pub shaped : has_pair_shape r.pair ≡ true
  pub bounded : r.attempts ≤ max_smallint
  pub running : is_in_progress r.status ≡ true → 1 ≤ r.attempts
  pub completed : is_done r.status ≡ true → 1 ≤ r.attempts
  pub explained : is_failed r.status ≡ true → has_reason r.error ≡ true
  pub silent : is_failed r.status ≡ false → r.error ≡ none

-- Where a row is on its way: it grows whenever the status of the row changes.
abbrev pub rank_of : Status → ℕ → ℕ
rank_of in_progress n = 2 * n
rank_of pending n = 2 * n + 1
rank_of done n = 2 * n + 1
rank_of failed n = 2 * n + 1

abbrev pub rank : Row → ℕ
rank r = rank_of r.status r.attempts

-- `r'` is the same task as `r`, at the same moment or later.
pub record Later (r r' : Row) : Type 0 where
  pub same_id : r'.id ≡ r.id
  pub same_pair : r'.pair ≡ r.pair
  pub same_created : r'.created_at ≡ r.created_at
  pub ranked : rank r ≤ rank r'
  pub level : rank r ≡ rank r' → r' ≡ r
  pub settled : is_unfinished r.status ≡ false → r' ≡ r

pub Later-refl : (r : Row) → Later r r
Later-refl r = record {
  same_id = refl;
  same_pair = refl;
  same_created = refl;
  ranked = omega arith;
  level = λ _. refl;
  settled = λ _. refl;
}

settled_trans :
    (r r' r'' : Row) → Later r r' → Later r' r'' → is_unfinished r.status ≡ false → r'' ≡ r
settled_trans r r' r'' h k e = let same = h.settled e in k.settled (rw same e) ∙ same

level_trans : (r r' r'' : Row) → Later r r' → Later r' r'' → rank r ≡ rank r'' → r'' ≡ r
level_trans r r' r'' h k e =
    k.level (omega (arith, h.ranked, k.ranked)) ∙ h.level (omega (arith, h.ranked, k.ranked))

pub Later-trans : (r r' r'' : Row) → Later r r' → Later r' r'' → Later r r''
Later-trans r r' r'' h k = record {
  same_id = k.same_id ∙ h.same_id;
  same_pair = k.same_pair ∙ h.same_pair;
  same_created = k.same_created ∙ h.same_created;
  ranked = omega (arith, h.ranked, k.ranked);
  level = level_trans r r' r'' h k;
  settled = settled_trans r r' r'' h k;
}
