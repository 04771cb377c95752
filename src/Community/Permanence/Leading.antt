-- ===== src/Community/Permanence/Leading.antt =====
-- Results of operations that keep what lasts
use stageforge.Prelude.{◌≡◌, refl, subst, sym, Bool, true, false, if◌then◌else◌, Option, none, some}
use stageforge.Prelude.Keeping.{Survives}
use stageforge.Community.Records.{Community}
use stageforge.Community.Ballots.{Refusal, Outcome, done, refused}
use stageforge.Community.Permanence.{Lasting, Lasting-refl, unchanged-Lasting}

-- What an operation gives, with the state after it
unfoldable pub Leads {ℓ} : {F P : Type 0} {B : Type ℓ} → Community F P → B × Community F P → Type 0
Leads c r = Lasting c r.1

module _ {F P : Type 0} where
  -- The two branches of a test
  pub either_Leads {ℓ} :
      {B : Type ℓ} (b : Bool) (c : Community F P) (x y : B × Community F P)
      → Leads c x
      → Leads c y
      → Leads c (if b then x else y)
  either_Leads true c x y p q = p
  either_Leads false c x y p q = q

  pub tested_Leads {ℓ} :
      {B : Type ℓ} (b : Bool) (c : Community F P) (x y : B × Community F P)
      → (b ≡ true → Leads c x)
      → (b ≡ false → Leads c y)
      → Leads c (if b then x else y)
  tested_Leads true c x y p q = p refl
  tested_Leads false c x y p q = q refl

  -- The two cases of a value that may be missing
  pub found_Leads {ℓ m} :
      {A : Type ℓ} {B : Type m} (o : Option A) (c : Community F P) (x : B × Community F P)
      (f : A → B × Community F P)
      → (o ≡ none → Leads c x)
      → ((a : A) → o ≡ some a → Leads c (f a))
      → Leads c (elim o as (λ z. B × Community F P) [ none ↦ x | some a ↦ f a ])
  found_Leads none c x f p q = p refl
  found_Leads (some a) c x f p q = q a refl

  pub unchanged-Leads {ℓ} :
      {B : Type ℓ} (b : B) (c d : Community F P)
      → c.votes ≡ d.votes
      → c.proposals ≡ d.proposals
      → Leads c (b, d)
  unfolding Leads
  unchanged-Leads b c d v p = unchanged-Lasting c d v p

  pub gives_Leads {ℓ} : {B : Type ℓ} (b : B) (c d : Community F P) → Lasting c d → Leads c (b, d)
  unfolding Leads
  gives_Leads b c d l = l

  pub refused_Leads {ℓ} : {B : Type ℓ} (c : Community F P) (b : B) → Leads c (b, c)
  unfolding Leads
  refused_Leads c b = Lasting-refl c

  pub either_Lasting :
      (b : Bool) (c x y : Community F P)
      → Lasting c x
      → Lasting c y
      → Lasting c (if b then x else y)
  either_Lasting true c x y p q = p
  either_Lasting false c x y p q = q

  -- The two results of an operation before
  pub outcome_Leads {ℓ m} :
      {A : Type ℓ} {B : Type m} (o : Outcome A) (c : Community F P)
      (f : Refusal → B × Community F P) (g : A → B × Community F P)
      → ((r : Refusal) → Leads c (f r))
      → ((a : A) → o ≡ done a → Leads c (g a))
      → Leads c (elim o as (λ z. B × Community F P) [ refused r ↦ f r | done a ↦ g a ])
  outcome_Leads (refused r) c f g p q = p r
  outcome_Leads (done a) c f g p q = q a refl

-- A value where there was none
pub new_Survives {ℓ} :
    {A : Type ℓ} (R : A → A → Type 0) (o : Option A) (a : A) → o ≡ none → Survives R o (some a)
unfolding Survives
new_Survives R o a e = subst (λ x. Survives R x (some a)) (sym e) tt

-- A value in place of one that it is related to
pub next_Survives {ℓ} :
    {A : Type ℓ} (R : A → A → Type 0) (o : Option A) (a b : A)
    → o ≡ some a
    → R a b
    → Survives R o (some b)
unfolding Survives
next_Survives R o a b e r = subst (λ x. Survives R x (some b)) (sym e) r
