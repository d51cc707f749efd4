-- ===== src/Worker/Reasons.antt =====
-- The reasons that internal/worker stores for a failed task, and `failureReason`.
use currency_quotes_service.Prelude.{
  ℕ, zero, suc, ◌+◌, ◌/◌, ◌%◌, [], ◌∷◌, ◌++◌, Text, codes, ltb, if◌then◌else◌,
}
use currency_quotes_service.Domain.Errors.{Error, is, transient}

-- The digits of a number, at most as many as the fuel.
unfoldable pub digits : ℕ → ℕ → Text
digits zero n = []
digits (suc fuel) n =
    let more = digits fuel (n / 10) in (if ltb n 10 then [] else more) ++ (b'0' + n % 10) ∷ []

-- `%d` of a number that is not negative.
unfoldable pub format_int : ℕ → Text
unfolding digits
format_int n = digits (suc n) n

-- `reasonUnavailable`, `reasonUnusableResponse` and `reasonAbandoned`.
unfoldable pub unavailable : ℕ → Text
unavailable n = codes "provider unavailable after " ++ format_int n ++ codes " attempts"

abbrev pub unusable_response : Text
unusable_response = codes "provider returned an unusable response"

unfoldable pub abandoned_reason : ℕ → Text
abandoned_reason n = codes "abandoned after " ++ format_int n ++ codes " attempts"

-- `Worker.failureReason`.
unfoldable pub failure_reason : ℕ → Error → Text
failure_reason attempts e = if is transient e then unavailable attempts else unusable_response
