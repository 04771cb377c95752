-- ===== src/Authority/Answers.antt =====
-- The leases that answer for a scope, through the list operations of `grant` and `snapshot`.
use stageforge.Prelude.{
  ℕ, ◌<◌, ◌≤◌, ◌≡◌, refl, ap, ◌∙◌, ltb, String, str_eq, str_eq_iff, Bool, Bool-cases, true, false,
  ◌&&◌, ◌||◌, some, List, [], ◌∷◌, ◌⊎◌, inl, inr, All, filter, arith,
}
use stageforge.Authority.Leases.{
  AuthorityLease, ScopeKind, patch, department, resource, same_kind, same_scope, is_active,
  supersede, supersede_all, put_by_id, text_less, put_newest, sort_newest, active_leases,
  find_grantee,
}

-- A lease that would answer for `l`'s scope names `l`'s grantee.
abbrev pub Agrees : ℕ → AuthorityLease → AuthorityLease → Type 0
Agrees now l x = (same_scope x l && is_active now x) ≡ true → x.grantee ≡ l.grantee

abbrev pub answers : ℕ → AuthorityLease → AuthorityLease → Bool
answers now l x = same_scope x l && is_active now x

abbrev pub any_answers : ℕ → AuthorityLease → List AuthorityLease → Bool
any_answers now l [] = false
any_answers now l (x ∷ xs) = answers now l x || any_answers now l xs

supersede-Agrees :
    (now later : ℕ) (at : String) (l x : AuthorityLease)
    → now ≤ later
    → Agrees later l (supersede now at l x)
unfolding supersede
supersede-Agrees now later at l x t = elim (Bool-cases (same_scope x l && is_active now x)) [
  | inl hit ↦ rw hit (λ h. absurd (ground arith))
  | inr miss ↦ rw miss (λ h. absurd (ground arith))
]

or_true : (a : Bool) → (a || true) ≡ true
or_true true = refl
or_true false = refl

or_swap : (a b c : Bool) → (a || (b || c)) ≡ (b || (a || c))
or_swap a b c = ground arith

later_answers : (a b c : Bool) → (a ≡ false) ⊎ (b ≡ false) → ((a && b) || c) ≡ true → c ≡ true
later_answers a b c h e = ground arith

own_kind : (k : ScopeKind) → same_kind k k ≡ true
own_kind patch = refl
own_kind department = refl
own_kind resource = refl

pub supersede_all-Agrees :
    (now later : ℕ) (at : String) (l : AuthorityLease) (xs : List AuthorityLease)
    → now ≤ later
    → All (Agrees later l) (supersede_all now at l xs)
unfolding supersede_all
supersede_all-Agrees now later at l [] t = tt
supersede_all-Agrees now later at l (x ∷ xs) t =
    (supersede-Agrees now later at l x t, supersede_all-Agrees now later at l xs t)

pub put_by_id-Agrees :
    (now : ℕ) (l : AuthorityLease) (xs : List AuthorityLease)
    → All (Agrees now l) xs
    → All (Agrees now l) (put_by_id l xs)
unfolding put_by_id
put_by_id-Agrees now l [] h = (λ e. refl, tt)
put_by_id-Agrees now l (x ∷ xs) (h, hs) = elim (Bool-cases (str_eq x.lease_id l.lease_id)) [
  | inl same ↦ rw same (λ e. refl, hs)
  | inr other ↦ rw other (h, put_by_id-Agrees now l xs hs)
]

pub put_by_id-answers :
    (now : ℕ) (l : AuthorityLease) (xs : List AuthorityLease)
    → answers now l l ≡ true
    → any_answers now l (put_by_id l xs) ≡ true
unfolding put_by_id
put_by_id-answers now l [] h = rw h refl
put_by_id-answers now l (x ∷ xs) h = elim (Bool-cases (str_eq x.lease_id l.lease_id)) [
  | inl same ↦ rw (same, h) refl
  | inr other ↦ rw (other, put_by_id-answers now l xs h) (or_true (answers now l x))
]

put_newest-Agrees :
    (now : ℕ) (l x : AuthorityLease) (xs : List AuthorityLease)
    → Agrees now l x
    → All (Agrees now l) xs
    → All (Agrees now l) (put_newest x xs)
unfolding put_newest
put_newest-Agrees now l x [] h hs = (h, tt)
put_newest-Agrees now l x (y ∷ ys) h (k, ks) =
    elim (Bool-cases (text_less x.issued_at y.issued_at)) [
      | inl older ↦ rw older (k, put_newest-Agrees now l x ys h ks)
      | inr newer ↦ rw newer (h, (k, ks))
    ]

put_newest-answers :
    (now : ℕ) (l x : AuthorityLease) (xs : List AuthorityLease)
    → any_answers now l (put_newest x xs) ≡ (answers now l x || any_answers now l xs)
unfolding put_newest
put_newest-answers now l x [] = refl
put_newest-answers now l x (y ∷ ys) = elim (Bool-cases (text_less x.issued_at y.issued_at)) [
  | inl older ↦
      rw (older, put_newest-answers now l x ys)
        (or_swap (answers now l y) (answers now l x) (any_answers now l ys))
  | inr newer ↦ rw newer refl
]

sort_newest-Agrees :
    (now : ℕ) (l : AuthorityLease) (xs : List AuthorityLease)
    → All (Agrees now l) xs
    → All (Agrees now l) (sort_newest xs)
unfolding sort_newest
sort_newest-Agrees now l [] h = tt
sort_newest-Agrees now l (x ∷ xs) (h, hs) =
    put_newest-Agrees now l x (sort_newest xs) h (sort_newest-Agrees now l xs hs)

sort_newest-answers :
    (now : ℕ) (l : AuthorityLease) (xs : List AuthorityLease)
    → any_answers now l (sort_newest xs) ≡ any_answers now l xs
unfolding sort_newest
sort_newest-answers now l [] = refl
sort_newest-answers now l (x ∷ xs) =
    put_newest-answers now l x (sort_newest xs)
    ∙ ap (λ b. answers now l x || b) (sort_newest-answers now l xs)

find_grantee-answers :
    (now : ℕ) (l : AuthorityLease) (xs : List AuthorityLease)
    → All (Agrees now l) xs
    → any_answers now l xs ≡ true
    → find_grantee l.kind l.scope (filter (is_active now) xs) ≡ some l.grantee
unfolding find_grantee
find_grantee-answers now l [] h e = absurd (cc)
find_grantee-answers now l (x ∷ xs) (h, hs) e = elim (Bool-cases (is_active now x)) [
  | inl runs ↦ elim (Bool-cases (same_scope x l)) [
    | inl same ↦ rw (runs, same) (ap some (h (rw (runs, same) refl)))
    | inr other ↦
        rw (runs, other)
          (find_grantee-answers now l xs hs
            (later_answers (same_scope x l) (is_active now x) _ (inl other) e))
  ]
  | inr over ↦ rw over (
      find_grantee-answers now l xs hs
        (later_answers (same_scope x l) (is_active now x) _ (inr over) e))
]

pub active-answers :
    (now : ℕ) (l : AuthorityLease) (xs : List AuthorityLease)
    → All (Agrees now l) xs
    → any_answers now l xs ≡ true
    → find_grantee l.kind l.scope (active_leases now xs) ≡ some l.grantee
unfolding active_leases
active-answers now l xs h e =
    find_grantee-answers now l (sort_newest xs) (sort_newest-Agrees now l xs h)
      (sort_newest-answers now l xs ∙ e)

pub own_answers :
    (now : ℕ) (l : AuthorityLease) → l.revoked ≡ false → now < l.expires → answers now l l ≡ true
own_answers now l r t =
    let s : str_eq l.scope l.scope ≡ true = ground (arith, str_eq_iff l.scope l.scope) in
    let live : ltb now l.expires ≡ true = ground arith in rw (s, r, live, own_kind l.kind) refl
