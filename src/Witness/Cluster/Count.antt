-- ===== src/Witness/Cluster/Count.antt =====
-- Counting the witnesses below a bound that pass a test.
use stageforge.Prelude.{
  ℕ, zero, suc, ◌+◌, ◌≤◌, ◌<◌, ◌≡◌, refl, Bool, true, false, if◌then◌else◌, List, [], ◌∷◌, ◌++◌,
  length, filter, arith, Bool-cases, inl, inr,
}
use stageforge.Witness.Cluster.{list_of}

unfoldable pub count : ℕ → (ℕ → Bool) → ℕ
count zero p = 0
count (suc n) p = count n p + (if p n then 1 else 0)

pub count_mono :
    (n : ℕ) (p q : ℕ → Bool) → ((i : ℕ) → i < n → p i ≡ true → q i ≡ true) → count n p ≤ count n q
unfolding count
count_mono zero p q h = omega arith
count_mono (suc n) p q h =
    ground (arith, count_mono n p q (λ i l. h i (omega arith)), h n (omega arith))

pub count_disjoint :
    (n : ℕ) (p q : ℕ → Bool)
    → ((i : ℕ) → i < n → p i ≡ true → q i ≡ false)
    → count n p + count n q ≤ n
unfolding count
count_disjoint zero p q h = omega arith
count_disjoint (suc n) p q h =
    ground (arith, count_disjoint n p q (λ i l. h i (omega arith)), h n (omega arith))

pub count_some : (n : ℕ) (p : ℕ → Bool) → 0 < count n p → (i : ℕ) × (i < n) × (p i ≡ true)
unfolding count
count_some zero p h = absurd (omega arith)
count_some (suc n) p h = elim (Bool-cases (p n)) [
  | inl yes_n ↦ (n, omega arith, yes_n)
  | inr no_n ↦ let (i, l, e) = count_some n p (ground arith) in (i, omega arith, e)
]

length-filter-append {ℓ} :
    {A : Type ℓ} (p : A → Bool) (xs : List A) (y : A)
    → length (filter p (xs ++ y ∷ [])) ≡ length (filter p xs) + (if p y then 1 else 0)
length-filter-append p [] y = ground arith
length-filter-append p (x ∷ xs) y = ground (arith, length-filter-append p xs y)

pub length-filter-list_of {ℓ} :
    {A : Type ℓ} (n : ℕ) (p : A → Bool) (f : ℕ → A)
    → length (filter p (list_of n f)) ≡ count n (λ i. p (f i))
unfolding list_of count
length-filter-list_of zero p f = refl
length-filter-list_of (suc n) p f =
    omega (arith, length-filter-append p (list_of n f) (f n), length-filter-list_of n p f)
