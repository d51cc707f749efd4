-- ===== src/Prelude/Members.antt =====
-- Laws of membership in a list: what a search, a test of every element or an extension says of a member.
use mathlib.Core.Path.{◌≡◌, refl, sym, ap, ◌∙◌}
use mathlib.Core.Logic.{inl, inr}
use mathlib.Core.Bool.{Bool, true, false, false≢true}
use mathlib.Core.Option.{none, some}
use mathlib.Core.List.{List, [], ◌∷◌, ◌++◌, map}
use native.Mathlib.Omega.{arith}
use currency_quotes_service.Prelude.Tests.{Bool-cases}
use currency_quotes_service.Prelude.Lists.{any, find?, All, Extends}
use currency_quotes_service.Prelude.Laws.{In, Unique}

module _ {ℓ} {A : Type ℓ} where
  pub In-any : (p : A → Bool) (x : A) (xs : List A) → In x xs → p x ≡ true → any p xs ≡ true
  unfolding any
  In-any p x [] m e = elim m [ ]
  In-any p x (y ∷ xs) (inl s) e = rw s (rw e refl)
  In-any p x (y ∷ xs) (inr m) e = ground (arith, In-any p x xs m e)

  pub Extends-In :
      (R : A → A → Type 0) (xs ys : List A) (x : A)
      → Extends R xs ys
      → In x xs
      → (y : A) × In y ys × R x y
  Extends-In R [] ys x h m = elim m [ ]
  Extends-In R (z ∷ xs) [] x h m = absurd h
  Extends-In R (z ∷ xs) (y ∷ ys) x h (inl e) = (y, inl refl, rw e at h.0)
  Extends-In R (z ∷ xs) (y ∷ ys) x h (inr m) =
      let (y', m', r) = Extends-In R xs ys x h.1 m in (y', inr m', r)

  pub All-In {κ} : (P : A → Type κ) (xs : List A) (x : A) → All P xs → In x xs → P x
  All-In P [] x h m = elim m [ ]
  All-In P (y ∷ xs) x h (inl e) = rw e at h.0
  All-In P (y ∷ xs) x h (inr m) = All-In P xs x h.1 m

  pub find?-In : (p : A → Bool) (xs : List A) (x : A) → find? p xs ≡ some x → In x xs
  unfolding find?
  find?-In p [] x e = cc
  find?-In p (y ∷ xs) x e = elim (Bool-cases (p y)) [
    | inl hit ↦ inl (ground arith)
    | inr miss ↦ inr (find?-In p xs x (ground arith))
  ]

  pub any-In : (p : A → Bool) (xs : List A) → any p xs ≡ true → (x : A) × In x xs × (p x ≡ true)
  unfolding any
  any-In p [] e = cc
  any-In p (y ∷ xs) e = elim (Bool-cases (p y)) [
    | inl hit ↦ (y, inl refl, hit)
    | inr miss ↦ let (x, m, h) = any-In p xs (ground arith) in (x, inr m, h)
  ]

  pub find?_nothing : (p : A → Bool) (xs : List A) → any p xs ≡ false → find? p xs ≡ none
  unfolding find? any
  find?_nothing p [] e = refl
  find?_nothing p (x ∷ xs) e = ground (arith, find?_nothing p xs)

  -- What a search finds, it finds again in a list that extends the first.
  pub find?-Extends :
      (p : A → Bool) (R : A → A → Type 0) (xs ys : List A) (x : A)
      → ((x y : A) → R x y → p y ≡ p x)
      → Extends R xs ys
      → find? p xs ≡ some x
      → (y : A) × (find? p ys ≡ some y) × R x y
  unfolding find?
  find?-Extends p R [] ys x k h e = cc
  find?-Extends p R (z ∷ xs) [] x k h e = absurd h
  find?-Extends p R (z ∷ xs) (y ∷ ys) x k h e = elim (Bool-cases (p z)) [
    | inl hit ↦ let same : z ≡ x = ground arith in (y, ground (arith, k z y h.0), rw (sym same) h.0)
    | inr miss ↦
        let (u, found, r) = find?-Extends p R xs ys x k h.1 (ground arith) in
        (u, ground (arith, k z y h.0), r)
  ]

  -- Two elements that clash are one where no two do.
  pub Unique-same :
      (clash : A → A → Bool) (xs : List A) (x y : A)
      → Unique clash xs
      → In x xs
      → In y xs
      → clash x y ≡ true
      → clash y x ≡ true
      → x ≡ y
  Unique-same clash [] x y u m n c d = elim m [ ]
  Unique-same clash (z ∷ zs) x y u (inl e) (inl f) c d = sym e ∙ f
  Unique-same clash (z ∷ zs) x y u (inl e) (inr n) c d =
      absurd (false≢true (sym u.0 ∙ In-any (clash z) y zs n (rw e c)))
  Unique-same clash (z ∷ zs) x y u (inr m) (inl f) c d =
      absurd (false≢true (sym u.0 ∙ In-any (clash z) x zs m (rw f d)))
  Unique-same clash (z ∷ zs) x y u (inr m) (inr n) c d = Unique-same clash zs x y u.1 m n c d

  pub In-last : (xs : List A) (x : A) → In x (xs ++ x ∷ [])
  In-last [] x = inl refl
  In-last (y ∷ xs) x = inr (In-last xs x)

module _ {ℓ κ} {A : Type ℓ} {B : Type κ} where
  pub In-map : (g : A → B) (x : A) (xs : List A) → In x xs → In (g x) (map g xs)
  In-map g x [] m = elim m [ ]
  In-map g x (y ∷ xs) (inl e) = inl (ap g e)
  In-map g x (y ∷ xs) (inr m) = inr (In-map g x xs m)
