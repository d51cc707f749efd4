-- ===== src/Domain/Pair.antt =====
-- internal/domain/pair.go: a currency pair in BASE/QUOTE form, as its text.
pub mod Laws
use currency_quotes_service.Prelude.{
  ℕ, ◌-◌, Bool, true, false, ◌&&◌, not, List, [], ◌∷◌, ◌++◌, map, ◌==◌, leb, ltb, if◌then◌else◌,
  any, Text, codes, text_eq,
}
use currency_quotes_service.Domain.Errors.{
  Result, ok, err, rejected_pair, not_in_form, unsupported, identical,
}

-- The keys of the map `supportedCurrencies`.
abbrev pub supported_currencies : List Text
supported_currencies = codes "USD" ∷ codes "EUR" ∷ codes "MXN" ∷ []

-- `_, ok := supportedCurrencies[code]`.
unfoldable pub is_supported : Text → Bool
unfolding any text_eq
is_supported code = any (text_eq code) supported_currencies

-- `unicode.ToUpper`: written out on ASCII; `wide` is its table for the other runes.
unfoldable pub upper_rune : (ℕ → ℕ) → ℕ → ℕ
upper_rune wide c = if ltb c 128 then (if leb b'a' c && leb c b'z' then c - 32 else c) else wide c

-- `strings.ToUpper`.
unfoldable pub to_upper : (ℕ → ℕ) → Text → Text
unfolding upper_rune
to_upper wide s = map (upper_rune wide) s

-- `strings.Cut(s, "/")`: the text before and after the first slash, and whether there is one.
unfoldable pub cut : Text → Text × Text × Bool
cut [] = ([], [], false)
cut (c ∷ s) =
    let (before, after, found) = cut s in
    if c == b'/' then ([], s, true) else (c ∷ before, after, found)

-- The tests of `ParsePair` once the text is cut; `s` is the text as it was given.
unfoldable pub check_pair : Text → Text × Text × Bool → Result Text
unfolding is_supported text_eq
check_pair s (base, quote, found) =
    if not found
    then err (rejected_pair (not_in_form s))
    else if not (is_supported base)
    then err (rejected_pair (unsupported base))
    else if not (is_supported quote)
    then err (rejected_pair (unsupported quote))
    else if text_eq base quote
    then err (rejected_pair (identical base))
    else ok (base ++ b'/' ∷ quote)

unfoldable pub parse_pair : (ℕ → ℕ) → Text → Result Text
parse_pair wide s = check_pair s (cut (to_upper wide s))

-- `Pair.Currencies`: what `strings.Cut` answers, found or not.
unfoldable pub currencies : Text → Text × Text
unfolding cut
currencies p = let (base, quote, _) = cut p in (base, quote)
