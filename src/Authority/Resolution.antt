-- ===== src/Authority/Resolution.antt =====
-- Whom the registry names for a resource.
use stageforge.Prelude.{
  ℕ, ◌<◌, ◌≤◌, ◌≡◌, ◌≢◌, refl, sym, ap, ◌∙◌, String, Bool, Bool-cases, true, false, not, ◌||◌,
  if◌then◌else◌, Option, none, some, List, inl, inr, arith,
}
use stageforge.Prelude.Text.{is_set}
use stageforge.Authority.Leases.{
  AuthorityLease, resource, GrantRequest, clean, grant, build, parse_kind, parse_context, and_then,
  supersede_all, put_by_id, active_leases, find_grantee, resolve_authority,
}
use stageforge.Authority.Answers.{
  supersede_all-Agrees, put_by_id-Agrees, put_by_id-answers, active-answers, own_answers,
}

-- A result of a chain comes by way of a result of its first part.
via {ℓ κ μ} :
    {A : Type ℓ} {B : Type κ} {C : Type μ} (o : Option A) (f : A → Option B) (b : B)
    → and_then o f ≡ some b
    → ((a : A) → o ≡ some a → f a ≡ some b → C)
    → C
via none f b h k = absurd (cc)
via (some a) f b h k = k a refl h

refused_apart :
    (t : Bool) (o : Option AuthorityLease) (l : AuthorityLease)
    → t ≡ true
    → (if t then none else o) ≢ some l
refused_apart true o l e h = absurd (cc)
refused_apart false o l e h = absurd (cc)

allowed :
    (t : Bool) (o : Option AuthorityLease) (l : AuthorityLease)
    → t ≡ false
    → (if t then none else o) ≡ some l
    → o ≡ some l
allowed true o l e h = absurd (cc)
allowed false o l e h = h

some_scope : {x : AuthorityLease} (l : AuthorityLease) → some x ≡ some l → l.scope ≡ x.scope
some_scope {x = x} l h = let e : l ≡ x = cc in ap (λ y. y.scope) e

some_running : {x : AuthorityLease} (l : AuthorityLease) → some x ≡ some l → l.revoked ≡ x.revoked
some_running {x = x} l h = let e : l ≡ x = cc in ap (λ y. y.revoked) e

build-IsOwn :
    (now : ℕ) (at id : String) (r : GrantRequest) (l : AuthorityLease)
    → build now at id r ≡ some l
    → (clean 160 r.scope ≡ some l.scope) × (is_set l.scope ≡ true) × (l.revoked ≡ false)
unfolding build
build-IsOwn now at id r l h = via (clean 160 r.scope) _ l h (λ a ea ha.
    via (clean 160 r.grantee) _ l ha (λ b eb hb. via (clean 160 r.granted_by) _ l hb (λ c ec hc.
      via (clean 320 r.reason) _ l hc (λ d ed hd. via (clean 24 r.scope_kind) _ l hd (λ e ee he.
        via (clean 24 r.context) _ l he (λ f ef hf.
          elim (Bool-cases (not (is_set a) || not (is_set b))) [
            | inl unset ↦ absurd (refused_apart (not (is_set a) || not (is_set b)) _ l unset hf)
            | inr set ↦
                via (parse_kind e) _ l (allowed (not (is_set a) || not (is_set b)) _ l set hf)
                  (λ k ek hk. via (parse_context f) _ l hk (λ x ex hx. via r.ttl _ l hx (λ t et ht.
                    let own : l.scope ≡ a = some_scope l ht in
                    (ea ∙ ap some (sym own), rw own (ground arith), some_running l ht))))
          ]))))))

placed :
    (now : ℕ) (at : String) (o : Option AuthorityLease) (l : AuthorityLease)
    (xs ys : List AuthorityLease)
    → ◌≡◌ {A = Option (AuthorityLease × List AuthorityLease)}
        (elim o [ none ↦ none | some x ↦ some (x, put_by_id x (supersede_all now at x xs)) ])
        (some (l, ys))
    → (o ≡ some l) × (ys ≡ put_by_id l (supersede_all now at l xs))
placed now at none l xs ys h = absurd (cc)
placed now at (some x) l xs ys h =
    let e : x ≡ l = cc in
    let f : put_by_id x (supersede_all now at x xs) ≡ ys = cc in
    (ap some e, sym f ∙ ap (λ v. put_by_id v (supersede_all now at v xs)) e)

grant-placed :
    (now : ℕ) (at id : String) (r : GrantRequest) (l : AuthorityLease) (xs ys : List AuthorityLease)
    → grant now at id r xs ≡ some (l, ys)
    → (build now at id r ≡ some l) × (ys ≡ put_by_id l (supersede_all now at l xs))
unfolding grant
grant-placed now at id r l xs ys h = placed now at (build now at id r) l xs ys h

resolve_found :
    (now : ℕ) (text department_text scope cleaned grantee : String) (default : Option String)
    (xs : List AuthorityLease)
    → clean 160 text ≡ some scope
    → clean 160 department_text ≡ some cleaned
    → is_set scope ≡ true
    → find_grantee resource scope (active_leases now xs) ≡ some grantee
    → resolve_authority now text department_text default xs ≡ some (some grantee)
unfolding resolve_authority
resolve_found now text department_text scope cleaned grantee default xs a b c d =
    rw (a, b, c, d) refl

-- A resource lease that has been granted answers for its resource, under the text that it was granted
-- for and whatever department is asked about too, until it expires if nothing else happens.
pub grant_resolves :
    (now later : ℕ) (at id department_text cleaned : String) (r : GrantRequest)
    (default : Option String) (l : AuthorityLease) (xs ys : List AuthorityLease)
    → grant now at id r xs ≡ some (l, ys)
    → l.kind ≡ resource
    → clean 160 department_text ≡ some cleaned
    → now ≤ later
    → later < l.expires
    → resolve_authority later r.scope department_text default ys ≡ some (some l.grantee)
grant_resolves now later at id department_text cleaned r default l xs ys g k d t live =
    let (made, at_place) = grant-placed now at id r l xs ys g in
    let (own, set, running) = build-IsOwn now at id r l made in
    let others = supersede_all now at l xs in
    let agree = put_by_id-Agrees later l others (supersede_all-Agrees now later at l xs t) in
    let found = put_by_id-answers later l others (own_answers later l running live) in
    let f : find_grantee l.kind l.scope (active_leases later ys) ≡ some l.grantee =
      rw at_place (active-answers later l (put_by_id l others) agree found) in
    resolve_found later r.scope department_text l.scope cleaned l.grantee default ys own d set
      (ap (λ kind. find_grantee kind l.scope (active_leases later ys)) (sym k) ∙ f)
