-- ===== src/Community/Adoption.antt =====
-- What an adoption needs, and what it adopts
use stageforge.Prelude.{
  ℕ, ◌+◌, ◌≤◌, ◌<◌, ◌==◌, ltb, ◌≡◌, refl, Bool, true, false, not, ◌&&◌, ◌||◌, List, [], ◌++◌,
  length, arith,
}
use stageforge.Community.Records.{
  Arithmetic, for_it, against_it, abstaining, Proposal, Vote, Invitation, Policy, Community,
  durable_fraction,
}
use stageforge.Community.Tally.{
  Blocker, when, votes_of, invitations_of, count_choice, windows_closed, approval_ratio,
  durable_total, find_blockers, tally_of, unrecorded_invitations, unrecorded_votes, is_missing,
}

-- The votes on a proposal's version reach every minimum of the policy.
pub record IsReady {F P : Type 0} (arithmetic : Arithmetic F) (now : ℕ) (p : Proposal P)
    (c : Community F P) : Type 0 where
  pub enough : c.policy.min_raw_votes ≤ length (votes_of p.id p.version c.votes)
  pub decisive :
      0
      < count_choice for_it (votes_of p.id p.version c.votes)
        + count_choice against_it (votes_of p.id p.version c.votes)
  pub approved :
      arithmetic.less
        (approval_ratio arithmetic
          (count_choice for_it (votes_of p.id p.version c.votes))
          (count_choice against_it (votes_of p.id p.version c.votes)))
        c.policy.min_approval
      ≡ false
  pub durable :
      arithmetic.less
        (durable_total arithmetic
          (durable_fraction arithmetic c.policy.zero_day p.created_at now)
          (count_choice for_it (votes_of p.id p.version c.votes))
          (count_choice against_it (votes_of p.id p.version c.votes))
          (count_choice abstaining (votes_of p.id p.version c.votes)))
        c.policy.min_durable
      ≡ false
  pub windows :
      (not c.policy.require_closed
        || windows_closed now (invitations_of p.id p.version c.invitations))
      ≡ true
  pub recorded : (c.recording && (p.record_pending || is_missing p.record_ref)) ≡ false
  pub invitations_recorded :
      (c.recording && unrecorded_invitations (invitations_of p.id p.version c.invitations)) ≡ false
  pub ballots_recorded : (c.recording && unrecorded_votes (votes_of p.id p.version c.votes)) ≡ false

when_nil :
    (b : Bool) (k : Blocker) (ks : List Blocker) → (when b k ++ ks) ≡ [] → (b ≡ false) × (ks ≡ [])
when_nil true k ks h = ground arith
when_nil false k ks h = (refl, h)

last_nil : (b : Bool) (k : Blocker) → when b k ≡ [] → b ≡ false
last_nil true k h = ground arith
last_nil false k h = refl

-- The tests behind the blockers, when there are none
none_blocks :
    {F P : Type 0} (arithmetic : Arithmetic F) (policy : Policy F) (recording : Bool)
    (p : Proposal P) (is : List Invitation) (vs : List (Vote F)) (decisive : ℕ)
    (approval durable : F) (over : Bool)
    → find_blockers arithmetic policy recording p is vs decisive approval durable over ≡ []
    → ((recording && (p.record_pending || is_missing p.record_ref)) ≡ false)
      × ((recording && unrecorded_invitations is) ≡ false)
      × ((recording && unrecorded_votes vs) ≡ false)
      × (ltb (length vs) policy.min_raw_votes ≡ false)
      × ((decisive == 0 || arithmetic.less approval policy.min_approval) ≡ false)
      × (arithmetic.less durable policy.min_durable ≡ false)
      × ((policy.require_closed && not over) ≡ false)
unfolding find_blockers
none_blocks arithmetic policy recording p is vs decisive approval durable over h =
    let a = when_nil _ _ _ h in
    let b = when_nil _ _ _ a.1 in
    let d = when_nil _ _ _ b.1 in
    let e = when_nil _ _ _ d.1 in
    let f = when_nil _ _ _ e.1 in
    let g = when_nil _ _ _ f.1 in (a.0, b.0, d.0, e.0, f.0, g.0, last_nil _ _ g.1)

enough_votes : (n m : ℕ) → ltb n m ≡ false → m ≤ n
enough_votes n m h = ground arith

is_closed : (required over : Bool) → (required && not over) ≡ false → (not required || over) ≡ true
is_closed required over h = ground arith

is_decisive : (n : ℕ) (b : Bool) → (n == 0 || b) ≡ false → (0 < n) × (b ≡ false)
is_decisive n b h = ground arith

module _ {F P : Type 0} (arithmetic : Arithmetic F) where
  -- A tally without blockers
  pub no_blockers-IsReady :
      (now : ℕ) (p : Proposal P) (c : Community F P)
      → (tally_of arithmetic now p c).blockers ≡ []
      → IsReady arithmetic now p c
  unfolding tally_of
  no_blockers-IsReady now p c h =
      let vs = votes_of p.id p.version c.votes in
      let is = invitations_of p.id p.version c.invitations in
      let a = count_choice for_it vs in
      let b = count_choice against_it vs in
      let approval = approval_ratio arithmetic a b in
      let durable =
        durable_total arithmetic (durable_fraction arithmetic c.policy.zero_day p.created_at now) a
          b (count_choice abstaining vs) in
      let facts =
        none_blocks arithmetic c.policy c.recording p is vs (a + b) approval durable
          (windows_closed now is) h in
      let agreed = is_decisive (a + b) (arithmetic.less approval c.policy.min_approval) facts.4 in
      record {
        enough = enough_votes (length vs) c.policy.min_raw_votes facts.3;
        decisive = agreed.0;
        approved = agreed.1;
        durable = facts.5;
        windows = is_closed c.policy.require_closed (windows_closed now is) facts.6;
        recorded = facts.0;
        invitations_recorded = facts.1;
        ballots_recorded = facts.2;
      }
