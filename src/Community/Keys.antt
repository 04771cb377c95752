-- ===== src/Community/Keys.antt =====
-- The keys of the votes: each vote stands under the identifier that its proposal, account and version make.
use stageforge.Prelude.{
  ℕ, ◌+◌, ◌≤◌, ◌≡◌, refl, sym, subst, ◌∙◌, String, str_eq, str_eq_iff, Bool, Bool-cases, true, ◌&&◌,
  if◌then◌else◌, ◌==◌, none, List, [], ◌∷◌, inl, inr, arith,
}
use stageforge.Prelude.Dict.{Dict, lookup, insert, lookup-insert}
use stageforge.Prelude.Keeping.{map_values}
use stageforge.Community.Records.{Vote}
use stageforge.Community.Tally.{votes_of}
use stageforge.Community.Ballots.{vote_id}

abbrev pub key_of : {F : Type 0} → Vote F → String
key_of v = vote_id v.proposal v.user v.version

-- No key stands twice, and each is that of its vote.
unfoldable pub IsKeyed : {F : Type 0} → Dict (Vote F) → Type 0
IsKeyed [] = Unit {0}
IsKeyed ((k, v) ∷ d) = (k ≡ key_of v) × ((lookup k d ≡ none) × IsKeyed d)

-- How many of some votes are of an account
unfoldable pub count_user : {F : Type 0} → String → List (Vote F) → ℕ
count_user u [] = 0
count_user u (v ∷ vs) = (if str_eq v.user u then 1 else 0) + count_user u vs

module _ {F : Type 0} where
  pub insert-IsKeyed :
      (k : String) (v : Vote F) (d : Dict (Vote F))
      → k ≡ key_of v
      → IsKeyed d
      → IsKeyed (insert k v d)
  unfolding IsKeyed insert lookup
  insert-IsKeyed k v [] h i = (h, (refl, tt))
  insert-IsKeyed k v ((j, w) ∷ d) h i = elim (Bool-cases (str_eq j k)) [
    | inl same ↦
        rw same (h, (subst (λ s. lookup s d ≡ none) ((str_eq_iff j k).0 same) i.1.0, i.1.1))
    | inr other ↦ rw other (
      i.0,
      (
        ground (arith, lookup-insert k j v d, str_eq_iff k j, str_eq_iff j k),
        insert-IsKeyed k v d h i.1.1,
      ),
    )
  ]

  map_values-lookup :
      (f : Vote F → Vote F) (k : String) (d : Dict (Vote F))
      → lookup k d ≡ none
      → lookup k (map_values f d) ≡ none
  unfolding lookup map_values
  map_values-lookup f k [] h = refl
  map_values-lookup f k ((j, w) ∷ d) h = ground (arith, map_values-lookup f k d)

  pub map_values-IsKeyed :
      (f : Vote F → Vote F) (d : Dict (Vote F))
      → ((v : Vote F) → key_of (f v) ≡ key_of v)
      → IsKeyed d
      → IsKeyed (map_values f d)
  unfolding IsKeyed map_values
  map_values-IsKeyed f [] g i = tt
  map_values-IsKeyed f ((k, v) ∷ d) g i =
      (i.0 ∙ sym (g v), (map_values-lookup f k d i.1.0, map_values-IsKeyed f d g i.1.1))

  -- Whether a vote is one of those that are counted
  abbrev is_counted : String → String → ℕ → Vote F → Bool
  is_counted p u n v = (str_eq v.proposal p && v.version == n) && str_eq v.user u

  counted_key :
      (p u : String) (n : ℕ) (v : Vote F) → is_counted p u n v ≡ true → key_of v ≡ vote_id p u n
  counted_key p u n v h =
      let a : v.proposal ≡ p = ground (arith, str_eq_iff v.proposal p) in
      let b : v.user ≡ u = ground (arith, str_eq_iff v.user u) in
      let e : v.version ≡ n = ground arith in rw (a, b, e) refl

  count_step :
      (p u : String) (n : ℕ) (k : String) (v : Vote F) (d : Dict (Vote F))
      → count_user u (votes_of p n ((k, v) ∷ d))
        ≡ (if is_counted p u n v then 1 else 0) + count_user u (votes_of p n d)
  unfolding votes_of count_user
  count_step p u n k v d = elim (Bool-cases (str_eq v.proposal p && v.version == n)) [
    | inl here ↦ rw here refl
    | inr other ↦ rw other (omega arith)
  ]

  -- An account whose key is missing has no vote.
  count_user-none :
      (p u : String) (n : ℕ) (d : Dict (Vote F))
      → IsKeyed d
      → lookup (vote_id p u n) d ≡ none
      → count_user u (votes_of p n d) ≡ 0
  unfolding IsKeyed lookup votes_of count_user
  count_user-none p u n [] i h = refl
  count_user-none p u n ((k, v) ∷ d) i h = elim (Bool-cases (is_counted p u n v)) [
    | inl hit ↦
        let e : k ≡ vote_id p u n = i.0 ∙ counted_key p u n v hit in
        ground (arith, str_eq_iff k (vote_id p u n))
    | inr miss ↦
        let rest : lookup (vote_id p u n) d ≡ none = ground arith in
        count_step p u n k v d ∙ rw miss (omega (arith, count_user-none p u n d i.1.1 rest))
  ]

  pub count_user-bound :
      (p u : String) (n : ℕ) (d : Dict (Vote F)) → IsKeyed d → count_user u (votes_of p n d) ≤ 1
  unfolding IsKeyed votes_of count_user
  count_user-bound p u n [] i = omega arith
  count_user-bound p u n ((k, v) ∷ d) i = elim (Bool-cases (is_counted p u n v)) [
    | inl hit ↦
        let e : lookup (vote_id p u n) d ≡ none =
          subst (λ s. lookup s d ≡ none) (i.0 ∙ counted_key p u n v hit) i.1.0 in
        let g = count_user-none p u n d i.1.1 e in
        subst (λ m. m ≤ 1) (sym (count_step p u n k v d)) (rw hit (omega (arith, g)))
    | inr miss ↦
        subst (λ m. m ≤ 1) (sym (count_step p u n k v d))
          (rw miss (omega (arith, count_user-bound p u n d i.1.1)))
  ]
