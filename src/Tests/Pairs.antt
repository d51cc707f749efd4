-- ===== src/Tests/Pairs.antt =====
-- Currency pairs.
use currency_quotes_service.Prelude.{ℕ, ◌≡◌, ◌↔◌, refl, [], ◌∷◌, Text, codes, if◌then◌else◌, ◌==◌}
use currency_quotes_service.Domain.Errors.{
  ok, err, rejected_pair, unsupported, identical, not_in_form,
}
use currency_quotes_service.Domain.Pair.{parse_pair, check_pair, to_upper, cut, currencies}
use currency_quotes_service.Domain.Pair.Laws.{IsPairOf, parse_pair_iff, currencies-parse_pair}

-- The long s, U+017F, whose upper case is an ASCII letter.
abbrev long_s : ℕ → ℕ
long_s c = if c == 383 then b'S' else c

parsed : parse_pair long_s (codes "eur/mxn") ≡ ok (codes "EUR/MXN")
unfolding parse_pair check_pair to_upper cut
parsed = refl

parsed_long_s : parse_pair long_s (b'u' ∷ 383 ∷ codes "d/eur") ≡ ok (codes "USD/EUR")
unfolding parse_pair check_pair to_upper cut
parsed_long_s = refl

rejected_same : parse_pair long_s (codes "usd/USD") ≡ err (rejected_pair (identical (codes "USD")))
unfolding parse_pair check_pair to_upper cut
rejected_same = refl

rejected_third :
    parse_pair long_s (codes "usd/eur/mxn") ≡ err (rejected_pair (unsupported (codes "EUR/MXN")))
unfolding parse_pair check_pair to_upper cut
rejected_third = refl

rejected_empty : parse_pair long_s [] ≡ err (rejected_pair (not_in_form []))
unfolding parse_pair check_pair to_upper cut
rejected_empty = refl

parse_pair_iff_example : (parse_pair long_s (codes "eur/mxn") ≡ ok (codes "EUR/MXN")) ↔ (
    (codes "EUR/MXN" ≡ to_upper long_s (codes "eur/mxn"))
    × ((base : Text) × (quote : Text) × IsPairOf (codes "EUR/MXN") base quote))
parse_pair_iff_example = parse_pair_iff long_s (codes "eur/mxn") (codes "EUR/MXN")

currencies-parse_pair_example :
    IsPairOf (codes "EUR/MXN") (currencies (codes "EUR/MXN")).0 (currencies (codes "EUR/MXN")).1
currencies-parse_pair_example =
    currencies-parse_pair long_s (codes "eur/mxn") (codes "EUR/MXN") parsed
