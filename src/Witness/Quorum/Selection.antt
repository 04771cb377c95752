-- ===== src/Witness/Quorum/Selection.antt =====
-- The lease that a round of results gives: what a quorum of them supports.
use stageforge.Prelude.{
  ℕ, zero, suc, ◌≤◌, ◌<◌, ◌≡◌, refl, min, leb, ltb, String, Bool, ◌&&◌, ◌↔◌, length-take, some,
  List, [], ◌∷◌, length, take, filter, arith, All, Bool-cases, inl, inr,
}
use stageforge.Witness.Quorum.{
  WitnessResult, counts, insert_longest, sort_longest, least_expiry, greatest_epoch, summarize,
  quorum_lease,
}

abbrev pub lasts : ℕ → WitnessResult → Bool
lasts l r = leb l r.expires

-- Sorting keeps how many elements pass a test.
length-filter-insert :
    (p : WitnessResult → Bool) (r : WitnessResult) (rs : List WitnessResult)
    → length (filter p (insert_longest r rs)) ≡ length (filter p (r ∷ rs))
unfolding insert_longest
length-filter-insert p r [] = refl
length-filter-insert p r (x ∷ xs) = ground (arith, length-filter-insert p r xs)

length-filter-sort :
    (p : WitnessResult → Bool) (rs : List WitnessResult)
    → length (filter p (sort_longest rs)) ≡ length (filter p rs)
unfolding sort_longest
length-filter-sort p [] = refl
length-filter-sort p (r ∷ rs) =
    ground (arith, length-filter-insert p r (sort_longest rs), length-filter-sort p rs)

length-filter-take :
    (p : WitnessResult → Bool) (n : ℕ) (rs : List WitnessResult)
    → length (filter p (take n rs)) ≤ length (filter p rs)
length-filter-take p zero rs = omega arith
length-filter-take p (suc n) [] = omega arith
length-filter-take p (suc n) (r ∷ rs) = ground (arith, length-filter-take p n rs)

-- The least expiry is at most the first bound and every expiry of the list.
least_expiry-le : (m : ℕ) (rs : List WitnessResult) → least_expiry m rs ≤ m
unfolding least_expiry
least_expiry-le m [] = omega arith
least_expiry-le m (r ∷ rs) = omega (arith, least_expiry-le (min m r.expires) rs)

length-filter-lasts :
    (l m : ℕ) (rs : List WitnessResult)
    → l ≤ least_expiry m rs
    → length (filter (lasts l) rs) ≡ length rs
unfolding least_expiry
length-filter-lasts l m [] h = refl
length-filter-lasts l m (r ∷ rs) h =
    ground (arith, length-filter-lasts l (min m r.expires) rs, least_expiry-le (min m r.expires) rs)

least_expiry-lt :
    (now m : ℕ) (rs : List WitnessResult)
    → now < m
    → All (λ r. now < r.expires) rs
    → now < least_expiry m rs
unfolding least_expiry
least_expiry-lt now m [] h a = h
least_expiry-lt now m (r ∷ rs) h a = least_expiry-lt now (min m r.expires) rs (omega arith) a.1

-- A property of every element survives sorting, taking and filtering.
module _ (P : WitnessResult → Type 0) where
  All-insert :
      (r : WitnessResult) (rs : List WitnessResult) → P r → All P rs → All P (insert_longest r rs)
  unfolding insert_longest
  All-insert r [] h a = (h, a)
  All-insert r (x ∷ xs) h a = elim (Bool-cases (leb x.expires r.expires)) [
    | inl front ↦ rw front (h, a)
    | inr later ↦ rw later (a.0, All-insert r xs h a.1)
  ]

  All-sort : (rs : List WitnessResult) → All P rs → All P (sort_longest rs)
  unfolding sort_longest
  All-sort [] a = a
  All-sort (r ∷ rs) a = All-insert r (sort_longest rs) a.0 (All-sort rs a.1)

  All-take : (n : ℕ) (rs : List WitnessResult) → All P rs → All P (take n rs)
  All-take zero rs a = tt
  All-take (suc n) [] a = tt
  All-take (suc n) (r ∷ rs) a = (a.0, All-take n rs a.1)

All-counts :
    (node : String) (now : ℕ) (rs : List WitnessResult)
    → All (λ r. now < r.expires) (filter (counts node now) rs)
All-counts node now [] = tt
All-counts node now (r ∷ rs) = elim (Bool-cases (counts node now r)) [
  | inl in_time ↦ rw in_time (ground arith, All-counts node now rs)
  | inr out ↦ rw out (All-counts node now rs)
]

-- No element expires later than one before it.
abbrev Falls : List WitnessResult → Type 0
Falls [] = Unit
Falls (r ∷ rs) = All (λ x. x.expires ≤ r.expires) rs × Falls rs

All-le_trans :
    (m n : ℕ) (rs : List WitnessResult)
    → m ≤ n
    → All (λ x. x.expires ≤ m) rs
    → All (λ x. x.expires ≤ n) rs
All-le_trans m n [] h a = tt
All-le_trans m n (r ∷ rs) h a = (omega arith, All-le_trans m n rs h a.1)

insert-Falls :
    (r : WitnessResult) (rs : List WitnessResult) → Falls rs → Falls (insert_longest r rs)
unfolding insert_longest
insert-Falls r [] f = (tt, tt)
insert-Falls r (x ∷ xs) f = elim (Bool-cases (leb x.expires r.expires)) [
  | inl front ↦ rw front ((ground arith, All-le_trans x.expires r.expires xs (ground arith) f.0), f)
  | inr later ↦
      rw later
        (All-insert (λ y. y.expires ≤ x.expires) r xs (ground arith) f.0, insert-Falls r xs f.1)
]

sort-Falls : (rs : List WitnessResult) → Falls (sort_longest rs)
unfolding sort_longest
sort-Falls [] = tt
sort-Falls (r ∷ rs) = insert-Falls r (sort_longest rs) (sort-Falls rs)

none_lasts :
    (l m : ℕ) (rs : List WitnessResult)
    → m < l
    → All (λ x. x.expires ≤ m) rs
    → length (filter (lasts l) rs) ≡ 0
none_lasts l m [] h a = refl
none_lasts l m (r ∷ rs) h a = ground (arith, none_lasts l m rs h a.1)

-- If `n` elements of a falling list last until `l`, its first `n` elements do.
first_last :
    (l n : ℕ) (rs : List WitnessResult)
    → Falls rs
    → n ≤ length (filter (lasts l) rs)
    → All (λ x. l ≤ x.expires) (take n rs)
first_last l zero rs f h = tt
first_last l (suc n) [] f h = tt
first_last l (suc n) (r ∷ rs) f h = elim (Bool-cases (lasts l r)) [
  | inl long ↦ (ground arith, first_last l n rs f.1 (ground arith))
  | inr short ↦ absurd (ground (arith, none_lasts l r.expires rs))
]

le-least_expiry :
    (l m : ℕ) (rs : List WitnessResult)
    → l ≤ m
    → All (λ x. l ≤ x.expires) rs
    → l ≤ least_expiry m rs
unfolding least_expiry
le-least_expiry l m [] h a = h
le-least_expiry l m (r ∷ rs) h a = le-least_expiry l (min m r.expires) rs (omega arith) a.1

length-insert :
    (r : WitnessResult) (rs : List WitnessResult) → length (insert_longest r rs) ≡ suc (length rs)
unfolding insert_longest
length-insert r [] = refl
length-insert r (x ∷ xs) = ground (arith, length-insert r xs)

length-sort : (rs : List WitnessResult) → length (sort_longest rs) ≡ length rs
unfolding sort_longest
length-sort [] = refl
length-sort (r ∷ rs) = omega (arith, length-insert r (sort_longest rs), length-sort rs)

-- The results of a round that count and last until `l` at least.
abbrev pub supports : String → ℕ → ℕ → WitnessResult → Bool
supports node now l r = counts node now r && lasts l r

filter-filter :
    (node : String) (now l : ℕ) (rs : List WitnessResult)
    → length (filter (lasts l) (filter (counts node now) rs))
      ≡ length (filter (supports node now l) rs)
filter-filter node now l [] = refl
filter-filter node now l (r ∷ rs) = ground (arith, filter-filter node now l rs)

-- What `summarize` gives of the first `n` of a falling list of grants.
summarize-lasts :
    (n : ℕ) (rs : List WitnessResult) (l e : ℕ)
    → n ≤ length rs
    → summarize (take n rs) ≡ some (l, e)
    → n ≤ length (filter (lasts l) rs)
unfolding summarize
summarize-lasts zero rs l e h s = omega arith
summarize-lasts (suc n) [] l e h s = cc
summarize-lasts (suc n) (r ∷ rs) l e h s = ground (
  arith,
  length-take n rs,
  least_expiry-le r.expires (take n rs),
  length-filter-lasts l r.expires (take n rs),
  length-filter-take (lasts l) n rs,
)

summarize-lt :
    (now : ℕ) (rs : List WitnessResult) (l e : ℕ)
    → All (λ r. now < r.expires) rs
    → summarize rs ≡ some (l, e)
    → now < l
unfolding summarize
summarize-lt now [] l e a s = cc
summarize-lt now (r ∷ rs) l e a s = ground (arith, least_expiry-lt now r.expires rs)

summarize-best :
    (l' : ℕ) (rs : List WitnessResult) (l e : ℕ)
    → All (λ r. l' ≤ r.expires) rs
    → summarize rs ≡ some (l, e)
    → l' ≤ l
unfolding summarize
summarize-best l' [] l e a s = cc
summarize-best l' (r ∷ rs) l e a s = ground (arith, le-least_expiry l' r.expires rs)

-- A lease that a round gives runs beyond the clock, and a quorum of the round's results are grants to
-- this node that last to its end or longer.
pub quorum_lease-IsSupported :
    (node : String) (quorum now : ℕ) (rs : List WitnessResult) (l e : ℕ)
    → quorum_lease node quorum now rs ≡ some (l, e)
    → (now < l) × (0 < quorum) × (quorum ≤ length (filter (supports node now l) rs))
unfolding quorum_lease
quorum_lease-IsSupported node quorum now rs l e h =
    let grants = filter (counts node now) rs in
    let sorted = sort_longest grants in
    elim (Bool-cases (leb quorum (length grants) && ltb 0 quorum)) [
      | inl enough ↦
          let s : summarize (take quorum sorted) ≡ some (l, e) = rw enough at h in
          (
            summarize-lt now (take quorum sorted) l e
                (All-take (λ r. now < r.expires) quorum sorted
                  (All-sort (λ r. now < r.expires) grants (All-counts node now rs)))
                s,
            ground arith,
            omega (
              arith,
              summarize-lasts quorum sorted l e (ground (arith, length-sort grants)) s,
              length-filter-sort (lasts l) grants,
              filter-filter node now l rs,
            ),
          )
      | inr few ↦ absurd (cc (rw few at h))
    ]

-- No end that a quorum of the round's grants reach is later than the end of the lease that is given.
pub quorum_lease-longest :
    (node : String) (quorum now l' : ℕ) (rs : List WitnessResult) (l e : ℕ)
    → quorum_lease node quorum now rs ≡ some (l, e)
    → quorum ≤ length (filter (supports node now l') rs)
    → l' ≤ l
unfolding quorum_lease
quorum_lease-longest node quorum now l' rs l e h many =
    let grants = filter (counts node now) rs in
    let sorted = sort_longest grants in
    elim (Bool-cases (leb quorum (length grants) && ltb 0 quorum)) [
      | inl enough ↦
          summarize-best l' (take quorum sorted) l e
            (first_last l' quorum sorted (sort-Falls grants)
              (omega (arith, length-filter-sort (lasts l') grants, filter-filter node now l' rs)))
            (rw enough at h)
      | inr few ↦ absurd (cc (rw few at h))
    ]

summarize-some :
    (n : ℕ) (rs : List WitnessResult)
    → 0 < n
    → 0 < length rs
    → (x : ℕ × ℕ) × (summarize (take n rs) ≡ some x)
unfolding summarize
summarize-some zero rs h k = absurd (omega arith)
summarize-some (suc n) [] h k = absurd (omega arith)
summarize-some (suc n) (r ∷ rs) h k =
    ((least_expiry r.expires (take n rs), greatest_epoch r.epoch (take n rs)), refl)

-- A round gives a lease exactly when at least a quorum of its results count.
pub quorum_lease-some_iff :
    (node : String) (quorum now : ℕ) (rs : List WitnessResult)
    → 0 < quorum
    → ((x : ℕ × ℕ) × (quorum_lease node quorum now rs ≡ some x))
      ↔ (quorum ≤ length (filter (counts node now) rs))
unfolding quorum_lease
quorum_lease-some_iff node quorum now rs h =
    let grants = filter (counts node now) rs in
    (
      λ (x, e). ground arith,
      λ enough.
          let (x, e) =
            summarize-some quorum (sort_longest grants) h (omega (arith, length-sort grants)) in
          (x, ground arith),
    )
