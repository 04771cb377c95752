-- ===== src/Authority/Exclusion.antt =====
-- At most one active lease holds a scope, whatever is granted, revoked and cleared over time.
use stageforge.Prelude.{
  ℕ, ◌≤◌, ◌≡◌, refl, ltb, String, str_eq, str_eq_iff, Bool, Bool-cases, true, false, not, ◌&&◌,
  List, [], ◌∷◌, inl, inr, All, arith,
}
use stageforge.Authority.Leases.{
  AuthorityLease, ScopeKind, patch, department, resource, same_kind, same_scope, is_active,
  supersede, supersede_all, put_by_id,
}

-- Two leases hold one scope at the same time.
abbrev pub clash : ℕ → AuthorityLease → AuthorityLease → Bool
clash now x y = same_scope x y && (is_active now x && is_active now y)

-- No two leases of the list do.
abbrev pub IsExclusive : ℕ → List AuthorityLease → Type 0
IsExclusive now [] = Unit
IsExclusive now (x ∷ xs) = All (λ y. clash now x y ≡ false) xs × IsExclusive now xs

-- A lease that has at most been ended
pub record Ends (x y : AuthorityLease) : Type 0 where
  pub kind : y.kind ≡ x.kind
  pub scope : y.scope ≡ x.scope
  pub expires : y.expires ≡ x.expires
  pub revoked : x.revoked ≡ true → y.revoked ≡ true

clash_flags :
    (a r r' s s' p p' q q' : Bool)
    → (r ≡ true → r' ≡ true)
    → (s ≡ true → s' ≡ true)
    → (p' ≡ true → p ≡ true)
    → (q' ≡ true → q ≡ true)
    → (a && ((not r && p) && (not s && q))) ≡ false
    → (a && ((not r' && p') && (not s' && q'))) ≡ false
clash_flags false r r' s s' p p' q q' h i j k l = refl
clash_flags true r r' s s' p p' q q' h i j k l = ground arith

Ends-clash :
    (now later : ℕ) (x y x' y' : AuthorityLease)
    → now ≤ later
    → Ends x x'
    → Ends y y'
    → clash now x y ≡ false
    → clash later x' y' ≡ false
Ends-clash now later x y x' y' t e f h =
    rw (e.kind, e.scope, e.expires, f.kind, f.scope, f.expires)
      (clash_flags (same_kind x.kind y.kind && str_eq x.scope y.scope) x.revoked x'.revoked
        y.revoked y'.revoked (ltb now x.expires) (ltb later x.expires) (ltb now y.expires)
        (ltb later y.expires) e.revoked f.revoked (λ k. ground arith) (λ k. ground arith) h)

-- Lists of leases of which the second has ended some of the first's
abbrev pub AllEnd : List AuthorityLease → List AuthorityLease → Type 0
AllEnd [] [] = Unit
AllEnd [] (y ∷ ys) = ⊥
AllEnd (x ∷ xs) [] = ⊥
AllEnd (x ∷ xs) (y ∷ ys) = Ends x y × AllEnd xs ys

pub Ends-refl : (x : AuthorityLease) → Ends x x
Ends-refl x = record { kind = refl; scope = refl; expires = refl; revoked = λ h. h }

pub AllEnd-refl : (xs : List AuthorityLease) → AllEnd xs xs
AllEnd-refl [] = tt
AllEnd-refl (x ∷ xs) = (Ends-refl x, AllEnd-refl xs)

All-clash :
    (now later : ℕ) (x x' : AuthorityLease) (ys ys' : List AuthorityLease)
    → now ≤ later
    → Ends x x'
    → AllEnd ys ys'
    → All (λ y. clash now x y ≡ false) ys
    → All (λ y. clash later x' y ≡ false) ys'
All-clash now later x x' [] [] t e f h = tt
All-clash now later x x' [] (y ∷ ys) t e f h = absurd f
All-clash now later x x' (y ∷ ys) [] t e f h = absurd f
All-clash now later x x' (y ∷ ys) (y' ∷ ys') t e (f, fs) (h, hs) =
    (Ends-clash now later x y x' y' t e f h, All-clash now later x x' ys ys' t e fs hs)

pub AllEnd-IsExclusive :
    (now later : ℕ) (xs ys : List AuthorityLease)
    → now ≤ later
    → AllEnd xs ys
    → IsExclusive now xs
    → IsExclusive later ys
AllEnd-IsExclusive now later [] [] t f h = tt
AllEnd-IsExclusive now later [] (y ∷ ys) t f h = absurd f
AllEnd-IsExclusive now later (x ∷ xs) [] t f h = absurd f
AllEnd-IsExclusive now later (x ∷ xs) (y ∷ ys) t (f, fs) (h, hs) =
    (All-clash now later x y xs ys t f fs h, AllEnd-IsExclusive now later xs ys t fs hs)

supersede-Ends : (now : ℕ) (at : String) (l x : AuthorityLease) → Ends x (supersede now at l x)
unfolding supersede
supersede-Ends now at l x = elim (Bool-cases (same_scope x l && is_active now x)) [
  | inl hit ↦ rw hit (record { kind = refl; scope = refl; expires = refl; revoked = λ h. refl })
  | inr miss ↦ rw miss (Ends-refl x)
]

ended_clash : (a b c : Bool) → (a && (b && (false && c))) ≡ false
ended_clash a b c = ground arith

missed_clash : (a a' b c : Bool) → a ≡ a' → (a && c) ≡ false → (a' && (b && c)) ≡ false
missed_clash a a' b c h i = ground arith

swapped : (a b c : Bool) → (a && (b && c)) ≡ false → (a && (c && b)) ≡ false
swapped a b c h = ground arith

same_kind-sym : (j k : ScopeKind) → same_kind j k ≡ same_kind k j
same_kind-sym patch patch = refl
same_kind-sym patch department = refl
same_kind-sym patch resource = refl
same_kind-sym department patch = refl
same_kind-sym department department = refl
same_kind-sym department resource = refl
same_kind-sym resource patch = refl
same_kind-sym resource department = refl
same_kind-sym resource resource = refl

same_scope-sym : (x l : AuthorityLease) → same_scope x l ≡ same_scope l x
same_scope-sym x l =
    rw (same_kind-sym x.kind l.kind)
      (ground (arith, str_eq_iff x.scope l.scope, str_eq_iff l.scope x.scope))

supersede-clash :
    (now : ℕ) (at : String) (l x : AuthorityLease) → clash now l (supersede now at l x) ≡ false
unfolding supersede
supersede-clash now at l x = elim (Bool-cases (same_scope x l && is_active now x)) [
  | inl hit ↦ rw hit (ended_clash (same_scope l x) (is_active now l) (ltb now x.expires))
  | inr miss ↦ rw miss (
      missed_clash (same_scope x l) (same_scope l x) (is_active now l) (is_active now x)
        (same_scope-sym x l) miss)
]

pub supersede_all-AllEnd :
    (now : ℕ) (at : String) (l : AuthorityLease) (xs : List AuthorityLease)
    → AllEnd xs (supersede_all now at l xs)
unfolding supersede_all
supersede_all-AllEnd now at l [] = tt
supersede_all-AllEnd now at l (x ∷ xs) =
    (supersede-Ends now at l x, supersede_all-AllEnd now at l xs)

pub supersede_all-clash :
    (now : ℕ) (at : String) (l : AuthorityLease) (xs : List AuthorityLease)
    → All (λ y. clash now l y ≡ false) (supersede_all now at l xs)
unfolding supersede_all
supersede_all-clash now at l [] = tt
supersede_all-clash now at l (x ∷ xs) =
    (supersede-clash now at l x, supersede_all-clash now at l xs)

clash-sym : (now : ℕ) (x y : AuthorityLease) → clash now x y ≡ false → clash now y x ≡ false
clash-sym now x y h =
    rw (same_scope-sym y x) (swapped (same_scope x y) (is_active now x) (is_active now y) h)

put-All :
    (now : ℕ) (l x : AuthorityLease) (xs : List AuthorityLease)
    → clash now x l ≡ false
    → All (λ y. clash now x y ≡ false) xs
    → All (λ y. clash now x y ≡ false) (put_by_id l xs)
unfolding put_by_id
put-All now l x [] h hs = (h, tt)
put-All now l x (y ∷ ys) h (k, ks) = elim (Bool-cases (str_eq y.lease_id l.lease_id)) [
  | inl same ↦ rw same (h, ks)
  | inr other ↦ rw other (k, put-All now l x ys h ks)
]

pub put-IsExclusive :
    (now : ℕ) (l : AuthorityLease) (xs : List AuthorityLease)
    → All (λ y. clash now l y ≡ false) xs
    → IsExclusive now xs
    → IsExclusive now (put_by_id l xs)
unfolding put_by_id
put-IsExclusive now l [] h e = (tt, tt)
put-IsExclusive now l (x ∷ xs) (h, hs) (e, es) = elim (Bool-cases (str_eq x.lease_id l.lease_id)) [
  | inl same ↦ rw same (hs, es)
  | inr other ↦
      rw other (put-All now l x xs (clash-sym now l x h) e, put-IsExclusive now l xs hs es)
]
