-- ===== src/Authority/Tests.antt =====
-- Two grants of one mixer, and the theorems about them.
use stageforge.Prelude.{ℕ, ◌≡◌, refl, str_eq, false, none, some, List, [], ◌∷◌, arith}
use stageforge.Prelude.Text.{is_set, strip, clip, lower_is}
use stageforge.Authority.Leases.{
  AuthorityLease, GrantRequest, resource, venue, grant, clean, resolve_authority, revoke,
  unknown_lease,
}
use stageforge.Authority.Exclusion.{IsExclusive}
use stageforge.Authority.History.{Event, registry, clock, one_holder}
use stageforge.Authority.Resolution.{grant_resolves}

abbrev for_ana : GrantRequest
for_ana = record {
  scope = " mixer ";
  grantee = "ana";
  granted_by = "";
  reason = "";
  scope_kind = "Resource";
  context = "venue";
  ttl = some 5000000000;
}

abbrev anas : AuthorityLease
anas = record {
  lease_id = "lease-1";
  kind = resource;
  scope = "mixer";
  context = venue;
  grantee = "ana";
  granted_by = "";
  reason = "";
  issued_at = "t1";
  ttl = 5000000000;
  revoked = false;
  revoked_at = none;
  revoked_by = none;
  replaced_by = none;
  expires = 5000000100;
}

anas-granted : grant 100 "t1" "lease-1" for_ana [] ≡ some (anas, anas ∷ [])
unfolding grant strip clip is_set str_eq lower_is
anas-granted = refl

grant_resolves_example :
    resolve_authority 200 " mixer " "audio" none (anas ∷ []) ≡ some (some "ana")
unfolding clean strip clip
grant_resolves_example =
    grant_resolves 100 200 "t1" "lease-1" "audio" "audio" for_ana none anas [] (anas ∷ [])
      anas-granted refl refl (omega arith) (omega arith)

missing_lease-unknown : (revoke "t2" "lease-9" "bo" (anas ∷ [])).0 ≡ unknown_lease
unfolding revoke str_eq
missing_lease-unknown = refl

-- The mixer goes to a second grantee, and the venue is cleared.
abbrev two_grants : List (ℕ × Event)
two_grants =
    (100, Event.granted "t1" "lease-1" for_ana)
    ∷ (50, Event.granted "t2" "lease-2" (record for_ana { grantee = "bo" }))
    ∷ (5, Event.cleared "t3" "venue")
    ∷ []

one_holder_example : IsExclusive (clock two_grants 0) (registry two_grants 0 [])
one_holder_example = one_holder two_grants 0 [] tt
