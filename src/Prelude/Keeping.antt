-- ===== src/Prelude/Keeping.antt =====
-- Dictionaries that only change their values in a given way, and only get new keys
use stageforge.Prelude.Tests.{str_eq, str_eq_iff, Bool-cases, if◌then◌else◌}
use stageforge.Prelude.Dict.{Dict, lookup, insert, lookup-insert}
use Prim.Native.String.{String}
use mathlib.Core.Path.{◌≡◌, refl, sym, subst}
use mathlib.Core.Logic.{inl, inr}
use mathlib.Core.Bool.{Bool, true, false}
use mathlib.Core.List.{[], ◌∷◌}
use mathlib.Core.Option.{Option, none, some}

-- Where there is a value before, there is one after, and they are related.
unfoldable pub Survives {ℓ} : {A : Type ℓ} → (A → A → Type 0) → Option A → Option A → Type 0
Survives R none o = Unit {0}
Survives R (some a) none = ⊥
Survives R (some a) (some b) = R a b

unfoldable pub Keeps {ℓ} : {A : Type ℓ} → (A → A → Type 0) → Dict A → Dict A → Type 0
Keeps R d e = (k : String) → Survives R (lookup k d) (lookup k e)

-- The values of a dictionary, each changed
unfoldable pub map_values {ℓ} : {A : Type ℓ} → (A → A) → Dict A → Dict A
map_values f [] = []
map_values f ((k, a) ∷ d) = (k, f a) ∷ map_values f d

module _ {ℓ} {A : Type ℓ} (R : A → A → Type 0) (related : (a : A) → R a a) where
  pub Survives-refl : (o : Option A) → Survives R o o
  unfolding Survives
  Survives-refl none = tt
  Survives-refl (some a) = related a

  pub Keeps-refl : (d : Dict A) → Keeps R d d
  unfolding Keeps
  Keeps-refl d k = Survives-refl (lookup k d)

  inserted_Survives :
      (k j : String) (a : A) (d : Dict A) (b : Bool)
      → Survives R (lookup k d) (some a)
      → (b ≡ true → k ≡ j)
      → Survives R (lookup j d) (if b then some a else lookup j d)
  inserted_Survives k j a d true s same =
      subst (λ i. Survives R (lookup i d) (some a)) (same refl) s
  inserted_Survives k j a d false s same = Survives-refl (lookup j d)

  pub insert-Keeps :
      (k : String) (a : A) (d : Dict A)
      → Survives R (lookup k d) (some a)
      → Keeps R d (insert k a d)
  unfolding Keeps
  insert-Keeps k a d s j =
      subst (λ o. Survives R (lookup j d) o) (sym (lookup-insert k j a d))
        (inserted_Survives k j a d (str_eq k j) s (str_eq_iff k j).0)

module _ {ℓ} {A : Type ℓ} (R : A → A → Type 0) where
  mapped_Survives :
      (f : A → A)
      → ((a : A) → R a (f a))
      → (k : String) (d : Dict A) → Survives R (lookup k d) (lookup k (map_values f d))
  unfolding Survives map_values lookup
  mapped_Survives f r k [] = tt
  mapped_Survives f r k ((j, a) ∷ d) = elim (Bool-cases (str_eq j k)) [
    | inl here ↦ rw here (r a)
    | inr there ↦ rw there (mapped_Survives f r k d)
  ]

  pub map_values-Keeps :
      (f : A → A) → ((a : A) → R a (f a)) → (d : Dict A) → Keeps R d (map_values f d)
  unfolding Keeps
  map_values-Keeps f r d k = mapped_Survives f r k d

  Survives-trans :
      ((a b c : A) → R a b → R b c → R a c)
      → (x y z : Option A) → Survives R x y
      → Survives R y z
      → Survives R x z
  unfolding Survives
  Survives-trans t none y z p q = tt
  Survives-trans t (some a) none z p q = elim p [ ]
  Survives-trans t (some a) (some b) none p q = q
  Survives-trans t (some a) (some b) (some c) p q = t a b c p q

  pub Keeps-trans :
      ((a b c : A) → R a b → R b c → R a c)
      → (x y z : Dict A) → Keeps R x y
      → Keeps R y z
      → Keeps R x z
  unfolding Keeps
  Keeps-trans t x y z p q k = Survives-trans t (lookup k x) (lookup k y) (lookup k z) (p k) (q k)

  -- A key that is there stays there, with a related value.
  pub Keeps-Survives :
      (d e : Dict A) (k : String) (a : A)
      → Keeps R d e
      → lookup k d ≡ some a
      → Survives R (some a) (lookup k e)
  unfolding Keeps
  Keeps-Survives d e k a s p = subst (λ o. Survives R o (lookup k e)) p (s k)

pub Survives-map {ℓ} :
    {A : Type ℓ} (R S : A → A → Type 0) (a : A) (o : Option A)
    → ((b : A) → R a b → S a b)
    → Survives R (some a) o
    → Survives S (some a) o
unfolding Survives
Survives-map R S a none f s = s
Survives-map R S a (some b) f s = f b s
