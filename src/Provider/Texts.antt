-- ===== src/Provider/Texts.antt =====
-- The wording of the errors of internal/provider/frankfurter.go that quote what the upstream sent, which
-- reaches the log on every attempt that fails. `strings.TrimSpace` is a parameter; a text is its bytes.
use currency_quotes_service.Prelude.{
  ℕ, zero, suc, ◌+◌, ◌≤◌, ◌≡◌, ◌||◌, List, [], ◌∷◌, ◌++◌, Text, codes, ◌==◌, leb, ltb,
  if◌then◌else◌, length, arith, Bool-cases, inl, inr,
}
use currency_quotes_service.Worker.Reasons.{format_int}
use currency_quotes_service.Provider.Client.{take}

abbrev pub snippet_size : ℕ
snippet_size = 256

module _ (trim : Text → Text) where
  -- `snippet`.
  unfoldable pub snippet : Text → Text
  snippet body =
      let s = trim body in
      if ltb snippet_size (length s) then take snippet_size s ++ codes "..." else s

  -- The wording of `statusError`.
  unfoldable pub status_error_text : Text → ℕ → Text → Text
  status_error_text pair status body =
      if status == 408 || status == 429 || leb 500 status
      then codes "fetch rate "
        ++ pair
        ++ codes ": transient provider failure: upstream status "
        ++ format_int status
        ++ codes ": "
        ++ snippet body
      else codes "fetch rate "
        ++ pair
        ++ codes ": upstream status "
        ++ format_int status
        ++ codes ": "
        ++ snippet body

length-append : (xs ys : Text) → length (xs ++ ys) ≡ length xs + length ys
length-append [] ys = omega arith
length-append (x ∷ xs) ys = omega (arith, length-append xs ys)

length-take {ℓ} : {A : Type ℓ} (n : ℕ) (xs : List A) → length (take n xs) ≤ n
unfolding take
length-take zero xs = omega arith
length-take (suc n) [] = omega arith
length-take (suc n) (x ∷ xs) = omega (arith, length-take n xs)

length-snippet : (trim : Text → Text) (body : Text) → length (snippet trim body) ≤ 259
unfolding snippet
length-snippet trim body = elim (Bool-cases (ltb snippet_size (length (trim body)))) [
  | inl long ↦ rw long (
      omega (
        arith,
        length-append (take snippet_size (trim body)) (codes "..."),
        length-take snippet_size (trim body),
      ))
  | inr short ↦ rw short (ground arith)
]

-- However much the upstream sent, an error of a status quotes at most 256 bytes of it, and is at most
-- 318 bytes longer than the pair and the status together.
pub length-status_error_text :
    (trim : Text → Text) (pair : Text) (status : ℕ) (body : Text)
    → length (status_error_text trim pair status body)
      ≤ 318 + length pair + length (format_int status)
unfolding status_error_text
length-status_error_text trim pair status body =
    elim (Bool-cases (status == 408 || status == 429 || leb 500 status)) [
      | inl transient ↦ rw transient (simp length-append (omega (arith, length-snippet trim body)))
      | inr final ↦ rw final (simp length-append (omega (arith, length-snippet trim body)))
    ]
