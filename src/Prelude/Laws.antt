-- ===== src/Prelude/Laws.antt =====
-- Laws of the list functions: searches under `map`, `++` and weaker tests, and lists without two
-- elements that clash.
use Prim.Native.Nat.{◌+◌}
use mathlib.Core.Path.{◌≡◌, refl, ◌∙◌}
use mathlib.Core.Logic.{◌⊎◌}
use mathlib.Core.Bool.{Bool, true, false, ◌||◌}
use mathlib.Core.Option.{none, some}
use mathlib.Core.List.{List, [], ◌∷◌, ◌++◌, map}
use native.Mathlib.Omega.{arith}
use currency_quotes_service.Prelude.Lists.{count_if, any, find?, All, Extends}

-- No value, at any level.
pub data Empty {ℓ} : Type ℓ where

module _ {ℓ} {A : Type ℓ} where
  -- Membership, by recursion.
  abbrev pub In : A → List A → Type ℓ
  In x [] = Empty
  In x (y ∷ ys) = (y ≡ x) ⊎ In x ys

  -- No two elements clash.
  abbrev pub Unique : (A → A → Bool) → List A → Type 0
  Unique clash [] = Unit
  Unique clash (x ∷ xs) = (any (clash x) xs ≡ false) × Unique clash xs

  pub any-append : (p : A → Bool) (xs ys : List A) → any p (xs ++ ys) ≡ (any p xs || any p ys)
  unfolding any
  any-append p [] ys = refl
  any-append p (x ∷ xs) ys = ground (arith, any-append p xs ys)

  -- A search that finds nothing finds nothing under a stronger test.
  pub any_mono :
      (p q : A → Bool) (xs : List A)
      → All (λ x. p x ≡ true → q x ≡ true) xs
      → any q xs ≡ false
      → any p xs ≡ false
  unfolding any
  any_mono p q [] h e = refl
  any_mono p q (x ∷ xs) h e = ground (arith, h.0, any_mono p q xs h.1)

  pub find?-none : (p : A → Bool) (xs : List A) → find? p xs ≡ none → any p xs ≡ false
  unfolding find? any
  find?-none p [] e = refl
  find?-none p (x ∷ xs) e = ground (arith, find?-none p xs)

  pub find?-some : (p : A → Bool) (xs : List A) (x : A) → find? p xs ≡ some x → p x ≡ true
  unfolding find?
  find?-some p [] x e = cc
  find?-some p (y ∷ xs) x e = ground (arith, find?-some p xs x)

  pub find?-any : (p : A → Bool) (xs : List A) (x : A) → find? p xs ≡ some x → any p xs ≡ true
  unfolding find? any
  find?-any p [] x e = cc
  find?-any p (y ∷ xs) x e = ground (arith, find?-any p xs x)

  pub count_if-zero : (p : A → Bool) (xs : List A) → count_if p xs ≡ 0 → any p xs ≡ false
  unfolding count_if any
  count_if-zero p [] e = refl
  count_if-zero p (x ∷ xs) e = ground (arith, count_if-zero p xs)

  pub count_if-any : (p : A → Bool) (xs : List A) → any p xs ≡ false → count_if p xs ≡ 0
  unfolding count_if any
  count_if-any p [] e = refl
  count_if-any p (x ∷ xs) e = ground (arith, count_if-any p xs)

  pub count_if-append :
      (p : A → Bool) (xs ys : List A) → count_if p (xs ++ ys) ≡ count_if p xs + count_if p ys
  unfolding count_if
  count_if-append p [] ys = omega arith
  count_if-append p (x ∷ xs) ys = ground (arith, count_if-append p xs ys)

  pub All-append {κ} : (P : A → Type κ) (xs ys : List A) → All P xs → All P ys → All P (xs ++ ys)
  All-append P [] ys h k = k
  All-append P (x ∷ xs) ys h k = (h.0, All-append P xs ys h.1 k)

  pub All-mono {κ κ'} :
      (P : A → Type κ) (Q : A → Type κ') (xs : List A) → ((x : A) → P x → Q x) → All P xs → All Q xs
  All-mono P Q [] f h = tt
  All-mono P Q (x ∷ xs) f h = (f x h.0, All-mono P Q xs f h.1)

  pub All-every {κ} : (P : A → Type κ) (xs : List A) → ((x : A) → P x) → All P xs
  All-every P [] f = tt
  All-every P (x ∷ xs) f = (f x, All-every P xs f)

  pub All-any-false : (p : A → Bool) (xs : List A) → any p xs ≡ false → All (λ x. p x ≡ false) xs
  unfolding any
  All-any-false p [] e = tt
  All-any-false p (x ∷ xs) e = (ground arith, All-any-false p xs (ground arith))

  pub Unique-snoc :
      (clash : A → A → Bool) (xs : List A) (y : A)
      → Unique clash xs
      → any (λ x. clash x y) xs ≡ false
      → Unique clash (xs ++ y ∷ [])
  unfolding any
  Unique-snoc clash [] y u e = (refl, tt)
  Unique-snoc clash (x ∷ xs) y u e =
      (ground (arith, any-append (clash x) xs (y ∷ [])), Unique-snoc clash xs y u.1 (ground arith))

  pub Extends-refl : (R : A → A → Type 0) → ((x : A) → R x x) → (xs : List A) → Extends R xs xs
  Extends-refl R r [] = tt
  Extends-refl R r (x ∷ xs) = (r x, Extends-refl R r xs)

  pub Extends-trans :
      (R : A → A → Type 0)
      → ((x y z : A) → R x y → R y z → R x z)
      → (xs ys zs : List A) → Extends R xs ys
      → Extends R ys zs
      → Extends R xs zs
  Extends-trans R t [] ys zs h k = tt
  Extends-trans R t (x ∷ xs) [] zs h k = absurd h
  Extends-trans R t (x ∷ xs) (y ∷ ys) [] h k = k
  Extends-trans R t (x ∷ xs) (y ∷ ys) (z ∷ zs) h k =
      (t x y z h.0 k.0, Extends-trans R t xs ys zs h.1 k.1)

  pub Extends-append :
      (R : A → A → Type 0) → ((x : A) → R x x) → (xs ys : List A) → Extends R xs (xs ++ ys)
  Extends-append R r [] ys = tt
  Extends-append R r (x ∷ xs) ys = (r x, Extends-append R r xs ys)

module _ {ℓ κ} {A : Type ℓ} {B : Type κ} where
  pub any-map : (p : B → Bool) (g : A → B) (xs : List A) → any p (map g xs) ≡ any (λ x. p (g x)) xs
  unfolding any
  any-map p g [] = refl
  any-map p g (x ∷ xs) = ground (arith, any-map p g xs)

  pub All-map {ρ} :
      (P : B → Type ρ) (g : A → B) (xs : List A) → All (λ x. P (g x)) xs → All P (map g xs)
  All-map P g [] h = tt
  All-map P g (x ∷ xs) h = (h.0, All-map P g xs h.1)

module _ {ℓ} {A : Type ℓ} where
  -- A change of every element that makes no clash leaves the elements without clashes.
  pub Unique-map :
      (clash : A → A → Bool) (R : A → A → Type 0) (g : A → A) (xs : List A)
      → ((x x' y y' : A) → R x x' → R y y' → clash x' y' ≡ true → clash x y ≡ true)
      → All (λ x. R x (g x)) xs
      → Unique clash xs
      → Unique clash (map g xs)
  Unique-map clash R g [] k h u = tt
  Unique-map clash R g (x ∷ xs) k h u = (
    any-map (clash (g x)) g xs
        ∙ any_mono (λ y. clash (g x) (g y)) (clash x) xs
            (All-mono (λ y. R y (g y)) (λ y. clash (g x) (g y) ≡ true → clash x y ≡ true) xs
              (λ y r. k x (g x) y (g y) h.0 r) h.1)
            u.0,
    Unique-map clash R g xs k h.1 u.1,
  )

  -- The elements that pass the test after the change are those that passed the other before.
  pub any-map_cong :
      (p q : A → Bool) (g : A → A) (xs : List A)
      → All (λ x. p (g x) ≡ q x) xs
      → any p (map g xs) ≡ any q xs
  unfolding any
  any-map_cong p q g [] h = refl
  any-map_cong p q g (x ∷ xs) h = ground (arith, h.0, any-map_cong p q g xs h.1)

  pub any-Extends :
      (p : A → Bool) (R : A → A → Type 0) (xs ys : List A)
      → ((x y : A) → R x y → p x ≡ true → p y ≡ true)
      → Extends R xs ys
      → any p xs ≡ true
      → any p ys ≡ true
  unfolding any
  any-Extends p R [] ys k h e = cc
  any-Extends p R (x ∷ xs) [] k h e = absurd h
  any-Extends p R (x ∷ xs) (y ∷ ys) k h e = ground (arith, k x y h.0, any-Extends p R xs ys k h.1)

  pub All-both {κ κ' ρ} :
      (P : A → Type κ) (Q : A → Type κ') (R : A → Type ρ) (xs : List A)
      → ((x : A) → P x → Q x → R x)
      → All P xs
      → All Q xs
      → All R xs
  All-both P Q R [] f h k = tt
  All-both P Q R (x ∷ xs) f h k = (f x h.0 k.0, All-both P Q R xs f h.1 k.1)

  pub Extends-map :
      (R : A → A → Type 0) (g : A → A) (xs : List A)
      → All (λ x. R x (g x)) xs
      → Extends R xs (map g xs)
  Extends-map R g [] h = tt
  Extends-map R g (x ∷ xs) h = (h.0, Extends-map R g xs h.1)

  -- What `find?` answers stands in the list.
  pub find?-holds :
      (p q : A → Bool) (xs : List A) (x : A) → find? p xs ≡ some x → q x ≡ true → any q xs ≡ true
  unfolding find? any
  find?-holds p q [] x e h = cc
  find?-holds p q (y ∷ xs) x e h = ground (arith, find?-holds p q xs x)

  pub any-append_true : (p : A → Bool) (xs ys : List A) → any p xs ≡ true → any p (xs ++ ys) ≡ true
  any-append_true p xs ys e = ground (arith, any-append p xs ys)
