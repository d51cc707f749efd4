-- ===== src/Worker/Serving.antt =====
-- What a worker of internal/worker/worker.go gets done with a provider that answers: a claim and its
-- completion, row by row.
pub mod Calls
pub mod Tables
pub mod Rounds
use currency_quotes_service.Prelude.{
  ℕ, ◌≡◌, refl, sym, subst, ◌⊎◌, inl, inr, true, List, [], ◌∷◌, map, All, Extends, Bool-cases,
  arith,
}
use currency_quotes_service.Domain.Task.{is_pending, is_done}
use currency_quotes_service.Storage.Schema.{Row}
use currency_quotes_service.Storage.Statements.{has_id, touch, claimed, is_held}
use currency_quotes_service.Storage.Invariant.Completion.{closed}

-- A row is left alone, or it was pending and is done.
abbrev pub Served : Row → Row → Type 0
Served r r' =
    (r' ≡ r) ⊎ ((r'.id ≡ r.id) × (is_pending r.status ≡ true) × (is_done r'.status ≡ true))

pub Served-refl : (r : Row) → Served r r
Served-refl r = inl refl

pub Served-trans : (x y z : Row) → Served x y → Served y z → Served x z
Served-trans x y z (inl e) k = subst (λ r. Served r z) e k
Served-trans x y z (inr (id, p, d)) (inl e) = inr (ground (arith, id, e), p, ground (arith, d, e))
Served-trans x y z (inr (id, p, d)) (inr (id', p', d')) = ground arith

-- A claim and its completion, on one row.
module _ (now later : ℕ) (r : Row) where
  served : Row → Row
  served s =
      touch (is_held r.id (claimed now r).attempts) (closed later)
        (touch (has_id r.id) (claimed now) s)

  served-done : ((served r).id ≡ r.id) × (is_done (served r).status ≡ true)
  unfolding served
  served-done = ground arith

  served-Served :
      (s : Row) → is_pending r.status ≡ true → (has_id r.id s ≡ true → s ≡ r) → Served s (served s)
  unfolding served
  served-Served s p only = elim (Bool-cases (has_id r.id s)) [
    | inl same ↦ inr (
        subst
          (λ x.
            ((served x).id ≡ x.id)
            × (is_pending x.status ≡ true)
            × (is_done (served x).status ≡ true))
          (sym (only same)) (served-done.0, p, served-done.1))
    | inr other ↦ inl (ground arith)
  ]

  -- The UPDATE of the claim and then that of its completion, where no other row has the identifier.
  pub Served-updates :
      (rs : List Row)
      → is_pending r.status ≡ true
      → All (λ s. has_id r.id s ≡ true → s ≡ r) rs
      → Extends Served rs (
          map
            (touch (is_held r.id (claimed now r).attempts) (closed later))
            (map (touch (has_id r.id) (claimed now)) rs))
  unfolding served
  Served-updates [] p h = tt
  Served-updates (s ∷ rs) p h = (served-Served s p h.0, Served-updates rs p h.1)
