-- ===== src/Storage/Guarantee.antt =====
-- Rely and guarantee for programs over the calls of World: what such a program may ask of whatever
-- others commit, what it promises of the tables that it leaves, and how two programs compose.
pub mod Calls
pub mod Statements
pub mod Steps
pub mod Methods
pub mod Completion
pub mod Creation
use currency_quotes_service.Prelude.{ℕ, ◌≡◌, refl, ◌∙◌, Option, some, none, suc, subst, sym, arith}
use currency_quotes_service.Domain.Errors.{Error, Result, ok, err}
use currency_quotes_service.Storage.Schema.{Db}
use currency_quotes_service.Storage.World.{World, Turn, M, ◌>>=◌, wrap, give}
use currency_quotes_service.Storage.Invariant.{Inv}
use currency_quotes_service.Storage.Progress.{Progress, Progress-refl, Progress-trans}

pub record Evolves (d d' : Db) : Type 0 where
  pub inv : Inv d'
  pub progress : Progress d d'

pub Evolves-trans : (d d' d'' : Db) → Evolves d d' → Evolves d' d'' → Evolves d d''
Evolves-trans d d' d'' h k = record {
  inv = k.inv;
  progress = Progress-trans d d' d'' h.progress k.progress;
}

pub Evolves-refl : (d : Db) → Inv d → Evolves d d
Evolves-refl d v = record { inv = v; progress = Progress-refl d }

-- Whatever others commit, at any point of the script.
abbrev pub Rely : (ℕ → Turn) → Type 0
Rely script = (n : ℕ) (d : Db) → Inv d → Evolves d ((script n).others d)

-- What a program promises of the world that it leaves behind.
pub record Good (w w' : World) : Type 0 where
  pub evolves : Evolves w.db w'.db
  pub script : w'.script ≡ w.script

pub Good-trans : (w w' w'' : World) → Good w w' → Good w' w'' → Good w w''
Good-trans w w' w'' h k = record {
  evolves = Evolves-trans w.db w'.db w''.db h.evolves k.evolves;
  script = k.script ∙ h.script;
}

abbrev pub After {ℓ} : {A : Type 0} → Result A × World → (A → World → Type ℓ) → Type ℓ
After (ok a, w) Q = Q a w
After (err e, w) Q = Unit

-- An outcome with its promise and, where there is an answer, its postcondition.
abbrev pub Outcome : {A : Type 0} → World → Result A × World → (A → World → Type 0) → Type 0
Outcome w r Q = Good w r.1 × After r Q

module _ {A B : Type 0} (w : World) (rely : Rely w.script) where
  continue-Safe :
      (r : Result A × World) (f : A → M B) (Q : A → World → Type 0) (R : B → World → Type 0)
      → Outcome w r Q
      → ((a : A) (w' : World) → Good w w' → Rely w'.script → Q a w' → Outcome w' (f a w') R)
      → Outcome w (◌>>=◌ (λ _. r) f w) R
  continue-Safe (ok a, w') f Q R (good, q) k =
      let (good', r) = k a w' good (subst Rely (sym good.script) rely) q in
      (Good-trans w w' (f a w').1 good good', r)
  continue-Safe (err e, w') f Q R (good, q) k = (good, tt)

  -- A program and what follows its answer.
  pub bind-Safe :
      (m : M A) (f : A → M B) (Q : A → World → Type 0) (R : B → World → Type 0)
      → Outcome w (m w) Q
      → ((a : A) (w' : World) → Good w w' → Rely w'.script → Q a w' → Outcome w' (f a w') R)
      → Outcome w ((m >>= f) w) R
  bind-Safe m f Q R h k = continue-Safe (m w) f Q R h k

pub Good-refl : (w : World) → Inv w.db → Good w w
Good-refl w v = record { evolves = Evolves-refl w.db v; script = refl }

module _ {A : Type 0} (w : World) where
  wrapped-Safe :
      (r : Result A × World) (Q : A → World → Type 0)
      → Outcome w r Q
      → Outcome w (wrap (λ _. r) w) Q
  wrapped-Safe (ok a, w') Q h = h
  wrapped-Safe (err e, w') Q h = h

  pub wrap-Safe : (m : M A) (Q : A → World → Type 0) → Outcome w (m w) Q → Outcome w (wrap m w) Q
  wrap-Safe m Q h = wrapped-Safe (m w) Q h

  pub give-Safe :
      (r : Result A) (Q : A → World → Type 0) → Inv w.db → After (r, w) Q → Outcome w (give r w) Q
  give-Safe r Q v h = (Good-refl w v, h)
