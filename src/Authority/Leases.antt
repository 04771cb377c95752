-- ===== src/Authority/Leases.antt =====
-- `AuthorityLeaseRegistry` of backend/authority_leases.py. The registry is the list of its leases in
-- the dictionary's order. The monotonic clock is the argument `now` and the text of the wall clock the
-- argument `at`; both times to live and the monotonic clock count nanoseconds. A new lease's
-- identifier, which the source draws at random, is an argument too.
use stageforge.Prelude.{
  ℕ, ◌+◌, min, max, ◌==◌, ltb, String, str_eq, Bool, true, false, not, ◌&&◌, ◌||◌, if◌then◌else◌,
  Option, none, some, List, [], ◌∷◌, filter,
}
use Prim.Native.Char.{code}
use stageforge.Prelude.Text.{is_set, strip, clip, lower_is}

pub data ScopeKind : Type 0 where
  patch department resource : ScopeKind

pub data LeaseContext : Type 0 where
  venue runtime : LeaseContext

pub record AuthorityLease : Type 0 where
  pub lease_id : String
  pub kind : ScopeKind
  pub scope : String
  pub context : LeaseContext
  pub grantee : String
  pub granted_by : String
  pub reason : String
  pub issued_at : String
  pub ttl : ℕ
  pub revoked : Bool
  pub revoked_at : Option String
  pub revoked_by : Option String
  pub replaced_by : Option String
  pub expires : ℕ

abbrev pub same_kind : ScopeKind → ScopeKind → Bool
same_kind patch patch = true
same_kind department department = true
same_kind resource resource = true
same_kind _ _ = false

abbrev pub same_context : LeaseContext → LeaseContext → Bool
same_context venue venue = true
same_context runtime runtime = true
same_context _ _ = false

unfoldable pub parse_kind : String → Option ScopeKind
parse_kind s =
    if lower_is s "patch"
    then some patch
    else if lower_is s "department"
    then some department
    else if lower_is s "resource"
    then some resource
    else none

unfoldable pub parse_context : String → Option LeaseContext
parse_context s =
    if lower_is s "venue" then some venue else if lower_is s "runtime" then some runtime else none

unfoldable pub has_control : String → Bool
has_control String.[] = false
has_control (String.◌∷◌ c s) = ltb (code c) 32 || code c == 127 || has_control s

-- `_clean`; `none` is the `ValueError`
unfoldable pub clean : ℕ → String → Option String
unfolding has_control
clean limit s = let t = clip limit (strip s) in if has_control t then none else some t

-- `_is_active`
abbrev pub is_active : ℕ → AuthorityLease → Bool
is_active now l = not l.revoked && ltb now l.expires

-- The arguments of `grant`, with their defaults filled in; `ttl` is `none` where it is no number.
pub record GrantRequest : Type 0 where
  pub scope : String
  pub grantee : String
  pub granted_by : String
  pub reason : String
  pub scope_kind : String
  pub context : String
  pub ttl : Option ℕ

abbrev pub and_then {ℓ κ} : {A : Type ℓ} {B : Type κ} → Option A → (A → Option B) → Option B
and_then none f = none
and_then (some a) f = f a

-- `max(1.0, min(43_200.0, ttl))`
abbrev pub bound_ttl : ℕ → ℕ
bound_ttl ttl = max 1000000000 (min 43200000000000 ttl)

-- The lease that `grant` builds of its arguments; `none` is a `ValueError`.
unfoldable pub build : ℕ → String → String → GrantRequest → Option AuthorityLease
unfolding clean parse_kind parse_context
build now at id r = and_then (clean 160 r.scope) (λ scope.
    and_then (clean 160 r.grantee) (λ grantee. and_then (clean 160 r.granted_by) (λ granted_by.
      and_then (clean 320 r.reason) (λ reason. and_then (clean 24 r.scope_kind) (λ kind_text.
        and_then (clean 24 r.context) (λ context_text.
          if not (is_set scope) || not (is_set grantee)
          then none
          else and_then (parse_kind kind_text) (λ kind.
            and_then (parse_context context_text) (λ context. and_then r.ttl (λ ttl. some (record {
              lease_id = id;
              kind = kind;
              scope = scope;
              context = context;
              grantee = grantee;
              granted_by = granted_by;
              reason = reason;
              issued_at = at;
              ttl = bound_ttl ttl;
              revoked = false;
              revoked_at = none;
              revoked_by = none;
              replaced_by = none;
              expires = now + bound_ttl ttl;
            }))))))))))

abbrev pub same_scope : AuthorityLease → AuthorityLease → Bool
same_scope a b = same_kind a.kind b.kind && str_eq a.scope b.scope

-- What `grant` makes of a lease that is there already
unfoldable pub supersede : ℕ → String → AuthorityLease → AuthorityLease → AuthorityLease
supersede now at l x =
    if same_scope x l && is_active now x
    then record x { revoked = true; revoked_at = some at; replaced_by = some l.lease_id }
    else x

unfoldable pub supersede_all :
    ℕ → String → AuthorityLease → List AuthorityLease → List AuthorityLease
unfolding supersede
supersede_all now at l [] = []
supersede_all now at l (x ∷ xs) = supersede now at l x ∷ supersede_all now at l xs

-- `self._leases[lease_id] = item`
unfoldable pub put_by_id : AuthorityLease → List AuthorityLease → List AuthorityLease
put_by_id l [] = l ∷ []
put_by_id l (x ∷ xs) =
    let rest = put_by_id l xs in if str_eq x.lease_id l.lease_id then l ∷ xs else x ∷ rest

-- `grant`
unfoldable pub grant :
    ℕ
    → String
    → String
    → GrantRequest
    → List AuthorityLease
    → Option (AuthorityLease × List AuthorityLease)
unfolding build supersede_all put_by_id
grant now at id r xs = elim (build now at id r) [
  | none ↦ none
  | some l ↦ some (l, put_by_id l (supersede_all now at l xs))
]

pub data RevokeReply : Type 0 where
  ended unknown_lease bad_requester : RevokeReply

-- `self._clean(requested_by, 160) or None`
unfoldable pub requester : String → Option String
unfolding clean
requester by = and_then (clean 160 by) (λ t. if is_set t then some t else none)

unfoldable pub end_lease : String → String → AuthorityLease → AuthorityLease
unfolding requester
end_lease at by l =
    if l.revoked
    then l
    else record l { revoked = true; revoked_at = some at; revoked_by = requester by }

abbrev pub is_clean : Option String → Bool
is_clean none = false
is_clean (some t) = true

-- `revoke`. A requester that cannot be cleaned is an error after the lease has been revoked.
unfoldable pub revoke :
    String → String → String → List AuthorityLease → RevokeReply × List AuthorityLease
unfolding end_lease
revoke at id by [] = (unknown_lease, [])
revoke at id by (x ∷ xs) =
    let rest = revoke at id by xs in
    if str_eq x.lease_id id
    then (
      if x.revoked || is_clean (clean 160 by) then ended else bad_requester,
      end_lease at by x ∷ xs,
    )
    else (rest.0, x ∷ rest.1)

-- `clear_context`, for a context that is known: one lease of it
unfoldable pub clear_lease : ℕ → String → LeaseContext → AuthorityLease → AuthorityLease
clear_lease now at context x =
    if same_context x.context context && is_active now x
    then record x { revoked = true; revoked_at = some at; revoked_by = some "context-change" }
    else x

unfoldable pub clear_all : ℕ → String → LeaseContext → List AuthorityLease → List AuthorityLease
unfolding clear_lease
clear_all now at context [] = []
clear_all now at context (x ∷ xs) = clear_lease now at context x ∷ clear_all now at context xs

unfoldable pub clear_context :
    ℕ → String → String → List AuthorityLease → Option (List AuthorityLease)
unfolding parse_context clear_all
clear_context now at text xs = elim (parse_context (strip text)) [
  | none ↦ none
  | some c ↦ some (clear_all now at c xs)
]

-- `a < b` on texts, by code points
unfoldable pub text_less : String → String → Bool
text_less String.[] String.[] = false
text_less String.[] (String.◌∷◌ d t) = true
text_less (String.◌∷◌ c s) String.[] = false
text_less (String.◌∷◌ c s) (String.◌∷◌ d t) =
    ltb (code c) (code d) || (code c == code d && text_less s t)

-- `leases.sort(key=issuedAt, reverse=True)`, which is stable
unfoldable pub put_newest : AuthorityLease → List AuthorityLease → List AuthorityLease
unfolding text_less
put_newest l [] = l ∷ []
put_newest l (x ∷ xs) =
    let rest = put_newest l xs in if text_less l.issued_at x.issued_at then x ∷ rest else l ∷ x ∷ xs

unfoldable pub sort_newest : List AuthorityLease → List AuthorityLease
unfolding put_newest
sort_newest [] = []
sort_newest (x ∷ xs) = put_newest x (sort_newest xs)

-- `active` of `snapshot`
unfoldable pub active_leases : ℕ → List AuthorityLease → List AuthorityLease
unfolding sort_newest
active_leases now xs = filter (is_active now) (sort_newest xs)

unfoldable pub find_grantee : ScopeKind → String → List AuthorityLease → Option String
find_grantee kind scope [] = none
find_grantee kind scope (x ∷ xs) =
    let rest = find_grantee kind scope xs in
    if same_kind x.kind kind && str_eq x.scope scope then some x.grantee else rest

abbrev pub find_scope : ScopeKind → String → List AuthorityLease → Option String
find_scope kind scope xs = if is_set scope then find_grantee kind scope xs else none

abbrev pub first_of {ℓ} : {A : Type ℓ} → Option A → Option A → Option A
first_of none b = b
first_of (some a) b = some a

-- `resolve`; the outer `none` is the `ValueError`
unfoldable pub resolve_authority :
    ℕ → String → String → Option String → List AuthorityLease → Option (Option String)
unfolding clean active_leases find_grantee
resolve_authority now resource_text department_text default xs =
    and_then (clean 160 resource_text) (λ r. and_then (clean 160 department_text) (λ d. some (
      first_of (find_scope resource r (active_leases now xs))
        (first_of (find_scope department d (active_leases now xs)) default))))
