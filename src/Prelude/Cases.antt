-- ===== src/Prelude/Cases.antt =====
-- What holds of a test or of a value that may be missing, by its cases
use stageforge.Prelude.Tests.{if◌then◌else◌}
use mathlib.Core.Path.{◌≡◌, refl}
use mathlib.Core.Bool.{Bool, true, false}
use mathlib.Core.Option.{Option, none, some}
use native.Mathlib.Omega.{arith}

module _ {ℓ m} {B : Type ℓ} (Q : B → Type m) where
  pub by_test : (b : Bool) (x y : B) → (b ≡ true → Q x) → (b ≡ false → Q y) → Q (if b then x else y)
  by_test true x y p q = p refl
  by_test false x y p q = q refl

  pub by_option {k} :
      {A : Type k} (o : Option A) (x : B) (f : A → B)
      → (o ≡ none → Q x)
      → ((a : A) → o ≡ some a → Q (f a))
      → Q (elim o as (λ z. B) [ none ↦ x | some a ↦ f a ])
  by_option none x f p q = p refl
  by_option (some a) x f p q = q a refl

infixl 1 ◌>>=◌
-- A value that may be missing, and what is made of it
abbrev pub ◌>>=◌ {ℓ m} : {A : Type ℓ} {B : Type m} → Option A → (A → Option B) → Option B
none >>= f = none
some a >>= f = f a

-- What gives a value has its first part.
pub bind_via {ℓ m k} :
    {A : Type ℓ} {B : Type m} {G : Type k} (o : Option A) (f : A → Option B) (b : B)
    → (o >>= f) ≡ some b
    → ((a : A) → o ≡ some a → f a ≡ some b → G)
    → G
bind_via none f b h g = ground arith
bind_via (some a) f b h g = g a refl h
