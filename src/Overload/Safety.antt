-- ===== src/Overload/Safety.antt =====
-- What a shedding plan may recommend
use stageforge.Prelude.{
  ℕ, ◌≤◌, ◌≡◌, sym, ap, subst, ◌∙◌, ◌==◌, String, str_eq, Bool, true, false, ◌&&◌, ◌||◌,
  if◌then◌else◌, Option, none, some, List, [], ◌∷◌, All, length, arith, max, ◌⊎◌, inl, inr, refl,
}
use stageforge.Prelude.Int.{ℤ, pos, negsuc}
use stageforge.Prelude.Cases.{bind_via, by_test}
use stageforge.Overload.Shedding.{
  RawEffect, not_object, effect_of, Effect, read_between, read_levels, read_fresh, known_safety,
  known_mode, read_effect, read_effects, is_optional, is_preserving, sheds_before, put_effect,
  eligible, ids, bypass_at, first_only, SheddingPlan, shedding_of, read_prior,
  overload_shedding_plan,
}

-- Whether a classified effect with an identifier may be bypassed
unfoldable pub offers : ℕ → RawEffect → Bool
offers n not_object = false
offers n (effect_of none slot safety mode priority) = false
offers n (effect_of (some (negsuc i)) slot safety mode priority) = false
offers n (effect_of (some (pos i)) slot safety mode priority) =
    n == i && (str_eq safety "optional" && str_eq mode "latency-preserving")

unfoldable pub is_offered : List RawEffect → ℕ → Bool
unfolding offers
is_offered [] n = false
is_offered (r ∷ rs) n = offers n r || is_offered rs n

-- Whether some output reports a level
unfoldable pub is_reported : ℕ → List (Option ℤ) → Bool
is_reported n [] = false
is_reported n (none ∷ os) = is_reported n os
is_reported n (some (negsuc m) ∷ os) = is_reported n os
is_reported n (some (pos m) ∷ os) = n == m || is_reported n os

-- What an output reports is a level up to `level`.
abbrev pub IsWithin : ℕ → Option ℤ → Type 0
IsWithin level o = (n : ℕ) × (o ≡ some (pos n)) × (n ≤ level)

-- The level is the greatest that an output reports, and at most 2. An effect is only recommended for a
-- bypass if it is classified as optional and latency-preserving; none is at level 0, and at level 1 at
-- most one.
pub record IsSafe (outputs : List (Option ℤ)) (effects : List RawEffect) (plan : SheddingPlan)
    : Type 0 where
  pub covered : All (IsWithin plan.level) outputs
  pub reached : (plan.level ≡ 0) ⊎ (is_reported plan.level outputs ≡ true)
  pub bounded : plan.level ≤ 2
  pub offered : All (λ n. is_offered effects n ≡ true) plan.bypass
  pub by_level :
      length plan.bypass
      ≤ (if plan.level == 0 then 0 else if plan.level == 1 then 1 else length plan.bypass)

known_safety-same : (s t : String) → known_safety s ≡ some t → t ≡ s
unfolding known_safety
known_safety-same s t h = ground arith

known_mode-same : (s t : String) → known_mode s ≡ some t → t ≡ s
unfolding known_mode
known_mode-same s t h = ground arith

read_fresh-pos :
    (seen : List ℕ) (o : Option ℤ) (n : ℕ) → read_fresh seen o ≡ some n → o ≡ some (pos n)
unfolding read_fresh
read_fresh-pos seen none n h = ground arith
read_fresh-pos seen (some (negsuc m)) n h = ground arith
read_fresh-pos seen (some (pos m)) n h = ground arith

same_number : (n : ℕ) → (n == n) ≡ true
same_number n = ground arith

abbrev effect_or : Effect → Option Effect → Effect
effect_or e none = e
effect_or e (some f) = f

-- The field values that make an effect offered
offers-read :
    (n i : ℕ) (slot : Option ℤ) (f safety m mode : String) (priority : Option ℤ)
    → n ≡ i
    → f ≡ safety
    → m ≡ mode
    → (str_eq f "optional" && str_eq m "latency-preserving") ≡ true
    → offers n (effect_of (some (pos i)) slot safety mode priority) ≡ true
unfolding offers
offers-read n i slot f safety m mode priority a b c t = rw (a, same_number i) (rw (sym b, sym c) t)

-- What is read from an effect that may be bypassed
read_effect-offers :
    (seen : List ℕ) (r : RawEffect) (e : Effect)
    → read_effect seen r ≡ some e
    → (is_optional e && is_preserving e) ≡ true
    → offers e.id r ≡ true
unfolding read_effect offers
read_effect-offers seen not_object e h t = ground arith
read_effect-offers seen (effect_of id slot safety mode priority) e h t =
    bind_via (read_fresh seen id) _ e h (λ i a h1.
      bind_via (read_between 0 3 slot) _ e h1 (λ s b h2.
        bind_via (known_safety safety) _ e h2 (λ f c h3.
          bind_via (known_mode mode) _ e h3 (λ m d h4.
            bind_via (read_between 0 1000 priority) _ e h4 (λ p g h5.
              let made = ap (effect_or e) h5 in
              subst (λ o. offers e.id (effect_of o slot safety mode priority) ≡ true)
                (sym (read_fresh-pos seen id i a))
                (offers-read e.id i slot e.safety safety e.mode mode priority
                  (sym (ap (λ x. x.id) made))
                  (sym (ap (λ x. x.safety) made) ∙ known_safety-same safety f c)
                  (sym (ap (λ x. x.mode) made) ∙ known_mode-same mode m d) t))))))

-- What an identifier is offered for among some effects, it is among more.
Sheds : List RawEffect → Effect → Type 0
Sheds rs e = (is_optional e && is_preserving e) ≡ true → is_offered rs e.id ≡ true

All-map :
    {A : Type 0} (Q R : A → Type 0) (xs : List A) → ((a : A) → Q a → R a) → All Q xs → All R xs
All-map Q R [] f h = tt
All-map Q R (x ∷ xs) f h = (f x h.0, All-map Q R xs f h.1)

abbrev effects_or : List Effect → Option (List Effect) → List Effect
effects_or d none = d
effects_or d (some es) = es

in_first : (b c : Bool) → b ≡ true → (b || c) ≡ true
in_first b c h = ground arith

in_rest : (b c : Bool) → c ≡ true → (b || c) ≡ true
in_rest b c h = ground arith

read_effects-Sheds :
    (seen : List ℕ) (rs : List RawEffect) (es : List Effect)
    → read_effects seen rs ≡ some es
    → All (Sheds rs) es
unfolding read_effects Sheds is_offered
read_effects-Sheds seen [] es h = subst (All (Sheds [])) (ap (effects_or es) h) tt
read_effects-Sheds seen (r ∷ rs) es h = bind_via (read_effect seen r) _ es h (λ e a h1.
    bind_via (read_effects (e.id ∷ seen) rs) _ es h1 (λ rest b h2.
      subst (All (Sheds (r ∷ rs))) (ap (effects_or es) h2) (
        λ t. in_first (offers e.id r) (is_offered rs e.id) (read_effect-offers seen r e a t),
        All-map (Sheds rs) (Sheds (r ∷ rs)) rest
            (λ x s t. in_rest (offers x.id r) (is_offered rs x.id) (s t))
            (read_effects-Sheds (e.id ∷ seen) rs rest b),
      )))

put_effect-All :
    (Q : Effect → Type 0) (e : Effect) (es : List Effect) → Q e → All Q es → All Q (put_effect e es)
unfolding put_effect
put_effect-All Q e [] q h = (q, tt)
put_effect-All Q e (f ∷ fs) q h =
    by_test (All Q) (sheds_before e f) _ _ (λ b. (q, h)) (λ b. (h.0, put_effect-All Q e fs q h.1))

eligible-All :
    (rs : List RawEffect) (es : List Effect)
    → All (Sheds rs) es
    → All (λ e. is_offered rs e.id ≡ true) (eligible es)
unfolding eligible Sheds
eligible-All rs [] h = tt
eligible-All rs (e ∷ es) h =
    by_test (All (λ x. is_offered rs x.id ≡ true)) (is_optional e && is_preserving e) _ _
      (λ b.
        put_effect-All (λ x. is_offered rs x.id ≡ true) e (eligible es) (h.0 b)
          (eligible-All rs es h.1))
      (λ b. eligible-All rs es h.1)

ids-All : (Q : ℕ → Type 0) (es : List Effect) → All (λ e. Q e.id) es → All Q (ids es)
unfolding ids
ids-All Q [] h = tt
ids-All Q (e ∷ es) h = (h.0, ids-All Q es h.1)

first_only-All : (Q : Effect → Type 0) (es : List Effect) → All Q es → All Q (first_only es)
first_only-All Q [] h = tt
first_only-All Q (e ∷ es) h = (h.0, tt)

first_only-length : (es : List Effect) → length (ids (first_only es)) ≤ 1
unfolding ids
first_only-length [] = omega arith
first_only-length (e ∷ es) = omega arith

bypass_at-All :
    (Q : ℕ → Type 0) (level : ℕ) (es : List Effect)
    → All (λ e. Q e.id) es
    → All Q (bypass_at level es)
unfolding bypass_at
bypass_at-All Q level es h =
    by_test (All Q) (level == 0) _ _ (λ a. tt)
      (λ a.
        by_test (All Q) (level == 1) _ _
          (λ b. ids-All Q (first_only es) (first_only-All (λ e. Q e.id) es h))
          (λ b. ids-All Q es h))

bypass_at-bound :
    (level : ℕ) (es : List Effect)
    → length (bypass_at level es)
      ≤ (if level == 0 then 0 else if level == 1 then 1 else length (bypass_at level es))
unfolding bypass_at
bypass_at-bound level es = ground (arith, first_only-length es)

abbrev plan_or : SheddingPlan → Option SheddingPlan → SheddingPlan
plan_or d none = d
plan_or d (some p) = p

read_between-pos :
    (low high : ℕ) (o : Option ℤ) (n : ℕ)
    → read_between low high o ≡ some n
    → (o ≡ some (pos n)) × (n ≤ high)
unfolding read_between
read_between-pos low high none n h = absurd (cc)
read_between-pos low high (some (negsuc m)) n h = absurd (cc)
read_between-pos low high (some (pos m)) n h =
    let e : m ≡ n = ground arith in (rw e refl, ground arith)

IsWithin-le : (m n : ℕ) → m ≤ n → (o : Option ℤ) → IsWithin m o → IsWithin n o
IsWithin-le m n l o (k, e, b) = (k, e, omega arith)

-- The level that is read is the greatest one reported, or 0 where there is no output.
record IsGreatest (outputs : List (Option ℤ)) (level : ℕ) : Type 0 where
  covered : All (IsWithin level) outputs
  reached : (level ≡ 0) ⊎ (is_reported level outputs ≡ true)
  bounded : level ≤ 2

max_cases : (n m : ℕ) → ((max n m ≡ n) × (m ≤ n)) ⊎ ((max n m ≡ m) × (n ≤ m))
max_cases n m = ground arith

IsGreatest-put :
    (o : Option ℤ) (os : List (Option ℤ)) (n rest : ℕ)
    → o ≡ some (pos n)
    → n ≤ 2
    → IsGreatest os rest
    → IsGreatest (o ∷ os) (max n rest)
unfolding is_reported
IsGreatest-put none os n rest e b g = absurd (cc)
IsGreatest-put (some (negsuc m)) os n rest e b g = absurd (cc)
IsGreatest-put (some (pos m)) os n rest e b g =
    let same : m ≡ n = cc in
    record {
      covered = (
        (n, e, omega arith),
        All-map (IsWithin rest) (IsWithin (max n rest)) os
            (IsWithin-le rest (max n rest) (omega arith)) g.covered,
      );
      reached = elim (max_cases n rest) [
        | inl first ↦ let top = first.0 in ground arith
        | inr later ↦ let top = later.0 in let r = g.reached in ground arith
      ];
      bounded = omega (arith, g.bounded);
    }

read_levels-IsGreatest :
    (outputs : List (Option ℤ)) (level : ℕ)
    → read_levels outputs ≡ some level
    → IsGreatest outputs level
unfolding read_levels
read_levels-IsGreatest [] level h =
    let e : 0 ≡ level = cc in
    subst (IsGreatest []) e (record { covered = tt; reached = inl refl; bounded = omega arith })
read_levels-IsGreatest (o ∷ os) level h = bind_via (read_between 0 2 o) _ level h (λ n a h1.
    bind_via (read_levels os) _ level h1 (λ rest b h2.
      let made : max n rest ≡ level = cc in
      let (e, l) = read_between-pos 0 2 o n a in
      subst (IsGreatest (o ∷ os)) made
        (IsGreatest-put o os n rest e l (read_levels-IsGreatest os rest b))))

-- In a shedding plan that is given, every output has reported a level up to the plan's, which is
-- at most 2, and is reported by an output unless it is 0. The plan recommends a bypass only for effects
-- that are classified as optional and latency-preserving, for none at level 0, and for at most one at
-- level 1.
pub overload_shedding_plan-IsSafe :
    (outputs : List (Option ℤ)) (effects : List RawEffect) (bypassed : List (Option ℤ))
    (plan : SheddingPlan)
    → overload_shedding_plan outputs effects bypassed ≡ some plan
    → IsSafe outputs effects plan
unfolding overload_shedding_plan shedding_of
overload_shedding_plan-IsSafe outputs effects bypassed plan h =
    bind_via (read_levels outputs) _ plan h (λ level a h1.
      bind_via (read_effects [] effects) _ plan h1 (λ es b h2.
        bind_via (read_prior (ids es) [] bypassed) _ plan h2 (λ prior c h3.
          let g = read_levels-IsGreatest outputs level a in
          subst (IsSafe outputs effects) (ap (plan_or plan) h3) (record {
            covered = g.covered;
            reached = g.reached;
            bounded = g.bounded;
            offered =
                bypass_at-All (λ n. is_offered effects n ≡ true) level (eligible es)
                  (eligible-All effects es (read_effects-Sheds [] effects es b));
            by_level = bypass_at-bound level (eligible es);
          }))))
