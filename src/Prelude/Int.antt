-- ===== src/Prelude/Int.antt =====
-- Go's int and time.Duration: integers of 64 bits, as integers.
use Prim.Native.Nat.{ℕ, ◌+◌, ◌-◌, ◌*◌, ◌%◌, ◌<◌}
use mathlib.Core.Bool.{Bool, true, false}
use currency_quotes_service.Prelude.Tests.{leb, ltb, if◌then◌else◌}

-- `negsuc n` is -(n + 1).
pub data ℤ : Type 0 where
  pos : ℕ → ℤ
  negsuc : ℕ → ℤ

abbrev pub lebℤ : ℤ → ℤ → Bool
lebℤ (pos a) (pos b) = leb a b
lebℤ (pos a) (negsuc b) = false
lebℤ (negsuc a) (pos b) = true
lebℤ (negsuc a) (negsuc b) = leb b a

abbrev pub ltbℤ : ℤ → ℤ → Bool
ltbℤ (pos a) (pos b) = ltb a b
ltbℤ (pos a) (negsuc b) = false
ltbℤ (negsuc a) (pos b) = true
ltbℤ (negsuc a) (negsuc b) = ltb b a

-- The part of an integer above zero.
abbrev pub pos_part : ℤ → ℕ
pos_part (pos n) = n
pos_part (negsuc n) = 0

abbrev pub IsPositive : ℤ → Type 0
IsPositive (pos n) = 0 < n
IsPositive (negsuc n) = ⊥

abbrev pub word : ℕ
word = 18446744073709551616

abbrev pub max_int64 : ℕ
max_int64 = 9223372036854775807

-- The bits of an int64, and the int64 of 64 bits.
abbrev pub to_word : ℤ → ℕ
to_word (pos n) = n % word
to_word (negsuc n) = (word - (n + 1) % word) % word

abbrev pub of_word : ℕ → ℤ
of_word n = if leb n max_int64 then pos n else negsuc (word - n - 1)

-- `k * x`, as int64 computes it.
unfoldable pub scale64 : ℕ → ℤ → ℤ
scale64 k x = of_word ((k * to_word x) % word)

-- `x - k`, as int64 computes it.
unfoldable pub minus64 : ℤ → ℕ → ℤ
minus64 x k = of_word ((to_word x + word - k % word) % word)
