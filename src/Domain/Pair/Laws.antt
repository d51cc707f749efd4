-- ===== src/Domain/Pair/Laws.antt =====
-- Laws of `ParsePair` and `Currencies` in internal/domain/pair.go.
use mathlib.Core.List.{map-append}
use currency_quotes_service.Prelude.{
  ℕ, ◌≡◌, ◌≢◌, ◌↔◌, ◌⊎◌, inl, inr, refl, sym, ap, Bool, true, [], ◌∷◌, ◌++◌, arith, Text, codes,
  text_eq_iff, any, ◌∙◌,
}
use currency_quotes_service.Domain.Errors.{ok}
use currency_quotes_service.Domain.Pair.{
  is_supported, to_upper, cut, check_pair, parse_pair, currencies,
}

-- The three currencies, written out.
abbrev pub IsCurrency : Text → Type 0
IsCurrency c = (c ≡ codes "USD") ⊎ (c ≡ codes "EUR") ⊎ (c ≡ codes "MXN")

-- The pair of two different currencies.
pub record IsPairOf (p base quote : Text) : Type 0 where
  pub base_known : IsCurrency base
  pub quote_known : IsCurrency quote
  pub differ : base ≢ quote
  pub form : p ≡ base ++ b'/' ∷ quote

is_supported_iff : (c : Text) → (is_supported c ≡ true) ↔ IsCurrency c
unfolding is_supported any
is_supported_iff c =
    ground
      (arith, text_eq_iff c (codes "USD"), text_eq_iff c (codes "EUR"), text_eq_iff c (codes "MXN"))

-- A text that is cut is put together again.
cut-join : (s : Text) → (cut s).2 ≡ true → s ≡ (cut s).0 ++ b'/' ∷ (cut s).1
unfolding cut
cut-join [] h = cc
cut-join (c ∷ s) h = ground (arith, cut-join s)

cut-currency :
    (base quote : Text) → IsCurrency base → cut (base ++ b'/' ∷ quote) ≡ (base, quote, true)
unfolding cut
cut-currency base quote (inl e) = rw e refl
cut-currency base quote (inr (inl e)) = rw e refl
cut-currency base quote (inr (inr e)) = rw e refl

check_pair_sound :
    (s base quote p : Text) (found : Bool)
    → check_pair s (base, quote, found) ≡ ok p
    → (found ≡ true) × IsPairOf p base quote
unfolding check_pair
check_pair_sound s base quote p found h =
    ground (arith, is_supported_iff base, is_supported_iff quote, text_eq_iff base quote)

check_pair_complete :
    (s base quote p : Text) → IsPairOf p base quote → check_pair s (base, quote, true) ≡ ok p
unfolding check_pair
check_pair_complete s base quote p h =
    ground (arith, h.form, is_supported_iff base, is_supported_iff quote, text_eq_iff base quote)

-- `ParsePair` answers a pair exactly when the upper-cased text is the slash-joined name of two
-- different currencies of the three supported ones, and the pair is then that upper-cased text.
pub parse_pair_iff :
    (wide : ℕ → ℕ) (s p : Text)
    → (parse_pair wide s ≡ ok p)
      ↔ ((p ≡ to_upper wide s) × ((base : Text) × (quote : Text) × IsPairOf p base quote))
unfolding parse_pair
parse_pair_iff wide s p = (to, from)
  where
    u : Text
    u = to_upper wide s

    to :
        parse_pair wide s ≡ ok p
        → (p ≡ u) × ((base : Text) × (quote : Text) × IsPairOf p base quote)
    to h =
        let (found, v) = check_pair_sound s (cut u).0 (cut u).1 p (cut u).2 h in
        (v.form ∙ sym (cut-join u found), ((cut u).0, (cut u).1, v))

    from :
        (p ≡ u) × ((base : Text) × (quote : Text) × IsPairOf p base quote)
        → parse_pair wide s ≡ ok p
    from (e, (base, quote, v)) = rw (← e) (
        rw (ap cut v.form ∙ cut-currency base quote v.base_known)
          (check_pair_complete s base quote p v))

-- The two currencies of a pair that `ParsePair` answered are supported, differ, and make up the pair
-- again when they are joined by a slash.
pub currencies-parse_pair :
    (wide : ℕ → ℕ) (s p : Text)
    → parse_pair wide s ≡ ok p
    → IsPairOf p (currencies p).0 (currencies p).1
unfolding currencies
currencies-parse_pair wide s p h =
    let (_, (base, quote, v)) = (parse_pair_iff wide s p).0 h in
    rw (ap cut v.form ∙ cut-currency base quote v.base_known) v

currency-upper : (wide : ℕ → ℕ) (c : Text) → IsCurrency c → to_upper wide c ≡ c
unfolding to_upper
currency-upper wide c (inl e) = rw e refl
currency-upper wide c (inr (inl e)) = rw e refl
currency-upper wide c (inr (inr e)) = rw e refl

IsPairOf-upper : (wide : ℕ → ℕ) (p base quote : Text) → IsPairOf p base quote → to_upper wide p ≡ p
unfolding to_upper
IsPairOf-upper wide p base quote v =
    rw (v.form, map-append)
      (rw (currency-upper wide base v.base_known, currency-upper wide quote v.quote_known) refl)

-- A pair that `ParsePair` answered is parsed to itself, whatever the letter case it came in.
pub parse_pair_idem :
    (wide : ℕ → ℕ) (s p : Text) → parse_pair wide s ≡ ok p → parse_pair wide p ≡ ok p
parse_pair_idem wide s p h =
    let (_, (base, quote, v)) = (parse_pair_iff wide s p).0 h in
    (parse_pair_iff wide p p).1 (sym (IsPairOf-upper wide p base quote v), (base, quote, v))
