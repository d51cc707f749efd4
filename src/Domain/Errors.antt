-- ===== src/Domain/Errors.antt =====
-- internal/domain/errors.go: the sentinel errors, and Go's error values as far as the service
-- inspects them. `errors.Is` walks the chain that `%w` builds. The wording of an error is kept only
-- where a client is shown it: that of a rejected pair (by its parts) and of a sentinel alone.
use currency_quotes_service.Prelude.{Bool, true, false, ◌||◌, Text}

-- The sentinels of this package, `provider.ErrTransient`, and those of the `context` package.
pub data Sentinel : Type 0 where
  invalid_pair not_found key_conflict stale_claim transient canceled deadline_exceeded : Sentinel

abbrev pub same : Sentinel → Sentinel → Bool
same invalid_pair invalid_pair = true
same not_found not_found = true
same key_conflict key_conflict = true
same stale_claim stale_claim = true
same transient transient = true
same canceled canceled = true
same deadline_exceeded deadline_exceeded = true
same _ _ = false

-- What `ParsePair` finds wrong, with the text that its message quotes.
pub data PairFault : Type 0 where
  not_in_form unsupported identical : Text → PairFault

-- An error value: a sentinel, a rejected pair (it wraps `ErrInvalidPair`), an error of a library or
-- one made in place, and one or two errors wrapped with `%w`.
pub data Error : Type 0 where
  sentinel : Sentinel → Error
  rejected_pair : PairFault → Error
  foreign : Error
  wrapped : Error → Error
  joined : Error → Error → Error

-- `errors.Is(err, target)`.
unfoldable pub is : Sentinel → Error → Bool
is s (sentinel t) = same s t
is s (rejected_pair f) = same s invalid_pair
is s foreign = false
is s (wrapped e) = is s e
is s (joined e f) = is s e || is s f

-- A Go result `(A, error)`.
pub data Result {ℓ} (A : Type ℓ) : Type ℓ where
  ok : A → Result A
  err : Error → Result A
