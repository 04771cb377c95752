-- ===== src/Community/Tally.antt =====
-- `proposal_tally` of backend/community_governance.py.
use stageforge.Prelude.{
  ℕ, ◌+◌, ◌==◌, ltb, leb, String, str_eq, Bool, true, false, not, ◌&&◌, ◌||◌, if◌then◌else◌, Option,
  none, some, List, [], ◌∷◌, ◌++◌, length,
}
use stageforge.Prelude.Dict.{Dict}
use stageforge.Community.Records.{
  Arithmetic, Choice, for_it, against_it, abstaining, InviteStatus, sent, voted, expired, Proposal,
  Invitation, Vote, Policy, Community, number, durable_fraction,
}

abbrev pub same_choice : Choice → Choice → Bool
same_choice for_it for_it = true
same_choice against_it against_it = true
same_choice abstaining abstaining = true
same_choice _ _ = false

abbrev pub is_sent : InviteStatus → Bool
is_sent sent = true
is_sent _ = false

-- `status in {'voted', 'expired'}`
abbrev pub is_over : InviteStatus → Bool
is_over voted = true
is_over expired = true
is_over _ = false

abbrev pub is_missing : Option String → Bool
is_missing none = true
is_missing (some s) = false

-- The votes and the invitations of a proposal's present version
unfoldable pub votes_of : {F : Type 0} → String → ℕ → Dict (Vote F) → List (Vote F)
votes_of p n [] = []
votes_of p n ((k, v) ∷ d) =
    let rest = votes_of p n d in if str_eq v.proposal p && v.version == n then v ∷ rest else rest

unfoldable pub invitations_of : String → ℕ → Dict Invitation → List Invitation
invitations_of p n [] = []
invitations_of p n ((k, i) ∷ d) =
    let rest = invitations_of p n d in
    if str_eq i.proposal p && i.version == n then i ∷ rest else rest

unfoldable pub count_choice : {F : Type 0} → Choice → List (Vote F) → ℕ
count_choice c [] = 0
count_choice c (v ∷ vs) = (if same_choice v.choice c then 1 else 0) + count_choice c vs

-- `sentAt <= now <= expiresAt`
abbrev pub in_window : ℕ → Option ℕ → Option ℕ → Bool
in_window now (some a) (some b) = leb a now && leb now b
in_window now _ _ = false

abbrev pub is_past : ℕ → Option ℕ → Bool
is_past now none = false
is_past now (some t) = ltb t now

-- An invitation whose window is open
abbrev pub is_live : ℕ → Invitation → Bool
is_live now i = in_window now i.sent_at i.expires_at && is_sent i.status

-- An invitation that can bring no vote any more
abbrev pub is_done : ℕ → Invitation → Bool
is_done now i = is_over i.status || is_past now i.expires_at

unfoldable pub count_live : ℕ → List Invitation → ℕ
count_live now [] = 0
count_live now (i ∷ is) = (if is_live now i then 1 else 0) + count_live now is

unfoldable pub all_done : ℕ → List Invitation → Bool
all_done now [] = true
all_done now (i ∷ is) = is_done now i && all_done now is

-- `all_windows_closed`
unfoldable pub windows_closed : ℕ → List Invitation → Bool
unfolding count_live all_done
windows_closed now is = not (length is == 0) && (count_live now is == 0 && all_done now is)

unfoldable pub unrecorded_invitations : List Invitation → Bool
unrecorded_invitations [] = false
unrecorded_invitations (i ∷ is) =
    (i.record_pending || is_missing i.record_ref) || unrecorded_invitations is

unfoldable pub unrecorded_votes : {F : Type 0} → List (Vote F) → Bool
unrecorded_votes [] = false
unrecorded_votes (v ∷ vs) = (v.record_pending || is_missing v.record_ref) || unrecorded_votes vs

pub data Blocker : Type 0 where
  proposal_unrecorded invitations_unrecorded ballots_unrecorded : Blocker
  too_few_votes too_little_approval too_little_durable windows_open : Blocker

abbrev pub when : Bool → Blocker → List Blocker
when true b = b ∷ []
when false b = []

pub record Tally (F : Type 0) : Type 0 where
  pub yes_votes : ℕ
  pub no_votes : ℕ
  pub abstentions : ℕ
  pub total : ℕ
  pub approval : F
  pub durable_total : F
  pub live_windows : ℕ
  pub closed : Bool
  pub blockers : List Blocker

module _ {F : Type 0} (arithmetic : Arithmetic F) where
  -- `durable_units` of a choice
  abbrev pub units : F → ℕ → F
  units durable n = arithmetic.round_to 6 (arithmetic.times (number arithmetic n) durable)

  -- `total_durable`; the source adds the three up in the order of a set
  unfoldable pub durable_total : F → ℕ → ℕ → ℕ → F
  durable_total durable a b c =
      arithmetic.round_to 6
        (arithmetic.plus (arithmetic.plus (units durable a) (units durable b)) (units durable c))

  -- `approval_ratio`
  unfoldable pub approval_ratio : ℕ → ℕ → F
  approval_ratio a b =
      if a + b == 0
      then number arithmetic 0
      else arithmetic.divide (number arithmetic a) (number arithmetic (a + b))

module _ {F P : Type 0} (arithmetic : Arithmetic F) where
  unfoldable pub find_blockers :
      Policy F
      → Bool
      → Proposal P
      → List Invitation
      → List (Vote F)
      → ℕ
      → F
      → F
      → Bool
      → List Blocker
  find_blockers policy recording p is vs decisive approval durable closed =
      when (recording && (p.record_pending || is_missing p.record_ref)) proposal_unrecorded
      ++ (when (recording && unrecorded_invitations is) invitations_unrecorded
          ++ (when (recording && unrecorded_votes vs) ballots_unrecorded
              ++ (when (ltb (length vs) policy.min_raw_votes) too_few_votes
                  ++ (when (decisive == 0 || arithmetic.less approval policy.min_approval)
                        too_little_approval
                      ++ (when (arithmetic.less durable policy.min_durable) too_little_durable
                          ++ when (policy.require_closed && not closed) windows_open)))))

  -- `proposal_tally` of a proposal that is there
  unfoldable pub tally_of : ℕ → Proposal P → Community F P → Tally F
  unfolding durable_total approval_ratio find_blockers windows_closed
  tally_of now p c =
      let vs = votes_of p.id p.version c.votes in
      let is = invitations_of p.id p.version c.invitations in
      let a = count_choice for_it vs in
      let b = count_choice against_it vs in
      let d = count_choice abstaining vs in
      let durable = durable_fraction arithmetic c.policy.zero_day p.created_at now in
      record {
        yes_votes = a;
        no_votes = b;
        abstentions = d;
        total = length vs;
        approval = approval_ratio arithmetic a b;
        durable_total = durable_total arithmetic durable a b d;
        live_windows = count_live now is;
        closed = windows_closed now is;
        blockers =
            find_blockers c.policy c.recording p is vs (a + b) (approval_ratio arithmetic a b)
              (durable_total arithmetic durable a b d) (windows_closed now is);
      }
