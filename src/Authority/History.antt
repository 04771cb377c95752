-- ===== src/Authority/History.antt =====
-- The registry over time: leases are granted, revoked and cleared, with any waits between.
use stageforge.Prelude.{
  ℕ, ◌+◌, ◌≤◌, refl, String, str_eq, Bool, Bool-cases, true, false, ◌&&◌, if◌then◌else◌, Option,
  none, some, List, [], ◌∷◌, inl, inr, arith,
}
use stageforge.Prelude.Text.{strip}
use stageforge.Authority.Leases.{
  AuthorityLease, LeaseContext, GrantRequest, same_context, is_active, grant, build, supersede_all,
  put_by_id, revoke, end_lease, requester, clear_context, clear_all, clear_lease, parse_context,
}
use stageforge.Authority.Exclusion.{
  IsExclusive, Ends, Ends-refl, AllEnd, AllEnd-refl, AllEnd-IsExclusive, supersede_all-AllEnd,
  supersede_all-clash, put-IsExclusive,
}

pub data Event : Type 0 where
  granted : (at id : String) (r : GrantRequest) → Event
  ended : (at id by : String) → Event
  cleared : (at context : String) → Event

-- A request that is refused changes nothing.
abbrev granted_or :
    Option (AuthorityLease × List AuthorityLease) → List AuthorityLease → List AuthorityLease
granted_or none xs = xs
granted_or (some (l, ys)) xs = ys

abbrev cleared_or : Option (List AuthorityLease) → List AuthorityLease → List AuthorityLease
cleared_or none xs = xs
cleared_or (some ys) xs = ys

unfoldable pub happen : Event → ℕ → List AuthorityLease → List AuthorityLease
happen (granted at id r) now xs = granted_or (grant now at id r xs) xs
happen (ended at id by) now xs = (revoke at id by xs).1
happen (cleared at context) now xs = cleared_or (clear_context now at context xs) xs

-- Each event comes after a wait.
unfoldable pub registry : List (ℕ × Event) → ℕ → List AuthorityLease → List AuthorityLease
unfolding happen
registry [] now xs = xs
registry ((wait, e) ∷ es) now xs = registry es (now + wait) (happen e (now + wait) xs)

abbrev pub clock : List (ℕ × Event) → ℕ → ℕ
clock [] now = now
clock ((wait, e) ∷ es) now = clock es (now + wait)

unless_Ends : (b : Bool) (x y : AuthorityLease) → Ends x y → Ends x (if b then x else y)
unless_Ends true x y e = Ends-refl x
unless_Ends false x y e = e

end_lease-Ends : (at by : String) (x : AuthorityLease) → Ends x (end_lease at by x)
unfolding end_lease
end_lease-Ends at by x =
    unless_Ends x.revoked x
      (record x { revoked = true; revoked_at = some at; revoked_by = requester by })
      (record { kind = refl; scope = refl; expires = refl; revoked = λ h. refl })

revoke-AllEnd : (at id by : String) (xs : List AuthorityLease) → AllEnd xs (revoke at id by xs).1
unfolding revoke
revoke-AllEnd at id by [] = tt
revoke-AllEnd at id by (x ∷ xs) = elim (Bool-cases (str_eq x.lease_id id)) [
  | inl found ↦ rw found (end_lease-Ends at by x, AllEnd-refl xs)
  | inr other ↦ rw other (Ends-refl x, revoke-AllEnd at id by xs)
]

clear_lease-Ends :
    (now : ℕ) (at : String) (c : LeaseContext) (x : AuthorityLease)
    → Ends x (clear_lease now at c x)
unfolding clear_lease
clear_lease-Ends now at c x = elim (Bool-cases (same_context x.context c && is_active now x)) [
  | inl hit ↦ rw hit (record { kind = refl; scope = refl; expires = refl; revoked = λ h. refl })
  | inr miss ↦ rw miss (Ends-refl x)
]

clear_all-AllEnd :
    (now : ℕ) (at : String) (c : LeaseContext) (xs : List AuthorityLease)
    → AllEnd xs (clear_all now at c xs)
unfolding clear_all
clear_all-AllEnd now at c [] = tt
clear_all-AllEnd now at c (x ∷ xs) = (clear_lease-Ends now at c x, clear_all-AllEnd now at c xs)

module _ (before now : ℕ) (at : String) (xs : List AuthorityLease) (t : before ≤ now)
    (e : IsExclusive before xs) where
  placed-IsExclusive :
      (o : Option AuthorityLease)
      → IsExclusive now (
          granted_or
            (elim o [ none ↦ none | some l ↦ some (l, put_by_id l (supersede_all now at l xs)) ])
            xs)
  placed-IsExclusive none = AllEnd-IsExclusive before now xs xs t (AllEnd-refl xs) e
  placed-IsExclusive (some l) =
      put-IsExclusive now l (supersede_all now at l xs) (supersede_all-clash now at l xs) (
        AllEnd-IsExclusive before now xs (supersede_all now at l xs) t
          (supersede_all-AllEnd now at l xs) e)

  grant-IsExclusive :
      (id : String) (r : GrantRequest) → IsExclusive now (granted_or (grant now at id r xs) xs)
  unfolding grant
  grant-IsExclusive id r = placed-IsExclusive (build now at id r)

  emptied-IsExclusive :
      (o : Option LeaseContext)
      → IsExclusive now
          (cleared_or (elim o [ none ↦ none | some c ↦ some (clear_all now at c xs) ]) xs)
  emptied-IsExclusive none = AllEnd-IsExclusive before now xs xs t (AllEnd-refl xs) e
  emptied-IsExclusive (some c) =
      AllEnd-IsExclusive before now xs (clear_all now at c xs) t (clear_all-AllEnd now at c xs) e

  clear_context-IsExclusive :
      (context : String) → IsExclusive now (cleared_or (clear_context now at context xs) xs)
  unfolding clear_context
  clear_context-IsExclusive context = emptied-IsExclusive (parse_context (strip context))

happen-IsExclusive :
    (before now : ℕ) (ev : Event) (xs : List AuthorityLease)
    → before ≤ now
    → IsExclusive before xs
    → IsExclusive now (happen ev now xs)
unfolding happen
happen-IsExclusive before now (granted at id r) xs t e = grant-IsExclusive before now at xs t e id r
happen-IsExclusive before now (ended at id by) xs t e =
    AllEnd-IsExclusive before now xs (revoke at id by xs).1 t (revoke-AllEnd at id by xs) e
happen-IsExclusive before now (cleared at context) xs t e =
    clear_context-IsExclusive before now at xs t e context

-- From a registry in which no scope has two active leases, and so from an empty one, nothing that
-- happens leads to two active leases of one scope, at the time that it happens or later.
pub one_holder :
    (es : List (ℕ × Event)) (now : ℕ) (xs : List AuthorityLease)
    → IsExclusive now xs
    → IsExclusive (clock es now) (registry es now xs)
unfolding registry
one_holder [] now xs e = e
one_holder ((wait, ev) ∷ es) now xs e =
    one_holder es (now + wait) (happen ev (now + wait) xs)
      (happen-IsExclusive now (now + wait) ev xs (omega arith) e)
