-- ===== src/Community/Casting.antt =====
-- The two ways to vote of backend/community_governance.py, by the token of an invitation and by account. `now`
-- is the clock, `ref` what appending to the public record gives; a token is given by its hash.
use stageforge.Prelude.{
  ℕ, ◌==◌, String, str_eq, Bool, false, not, ◌&&◌, if◌then◌else◌, Option, none, some, List, [], ◌∷◌,
}
use stageforge.Prelude.Dict.{Dict, lookup, insert}
use stageforge.Prelude.Text.{strip}
use stageforge.Community.Records.{
  Arithmetic, Choice, InviteStatus, sent, voted, expired, Proposal, Invitation, Vote, Policy,
  Community, hype_value, durable_fraction,
}
use stageforge.Community.Tally.{in_window, is_sent}
use stageforge.Community.Ballots.{
  Outcome, done, refused, not_open, no_account, bad_token, not_active, already_used,
  version_changed, window_over, wrong_account, already_voted, no_invitation, many_invitations,
  is_open, changed, recorded_vote, vote_id,
}

-- The first invitation with a token
unfoldable pub find_token : String → Dict Invitation → Option Invitation
find_token h [] = none
find_token h ((k, i) ∷ d) =
    let rest = find_token h d in if str_eq i.token_hash h then some i else rest

abbrev pub same_user : Option String → String → Bool
same_user none u = false
same_user (some v) u = str_eq v u

-- The invitations that `cast_account_vote` collects
unfoldable pub active_invitations : ℕ → String → String → ℕ → Dict Invitation → List Invitation
active_invitations now p user version [] = []
active_invitations now p user version ((k, i) ∷ d) =
    let rest = active_invitations now p user version d in
    if str_eq i.proposal p
      && (str_eq i.user user
          && (i.version == version && (is_sent i.status && in_window now i.sent_at i.expires_at)))
    then i ∷ rest
    else rest

module _ {F P : Type 0} (arithmetic : Arithmetic F) where
  unfoldable pub new_vote : ℕ → Choice → Invitation → String → Proposal P → Policy F → Vote F
  unfolding vote_id
  new_vote now choice i user p policy = record {
    id = vote_id i.proposal user i.version;
    proposal = i.proposal;
    version = i.version;
    invitation = i.id;
    user = user;
    choice = choice;
    cast_at = now;
    hype = hype_value arithmetic policy.zero_day p.created_at now;
    durable = durable_fraction arithmetic policy.zero_day p.created_at now;
    record_pending = false;
    record_ref = none;
  }

  -- The end of both ways to vote: the vote is stored and the invitation spent.
  unfoldable pub store_vote :
      ℕ
      → Choice
      → Invitation
      → String
      → Proposal P
      → Option String
      → Community F P
      → Outcome (Vote F) × Community F P
  unfolding new_vote
  store_vote now choice i user p ref c =
      let v = new_vote now choice i user p c.policy in
      elim (lookup v.id c.votes) [
        | some w ↦ (refused already_voted, c)
        | none ↦ (
          done (recorded_vote c.recording ref v),
          changed (record c {
            votes = insert v.id (recorded_vote c.recording ref v) c.votes;
            invitations =
                insert i.id (record i { status = voted; voted_at = some now }) c.invitations;
          }),
        )
      ]

  -- `cast_vote` past the tests on the proposal
  unfoldable pub cast_in_window :
      ℕ
      → Choice
      → Invitation
      → Proposal P
      → Option String
      → Bool
      → Option String
      → Community F P
      → Outcome (Vote F) × Community F P
  unfolding store_vote
  cast_in_window now choice i p account token_only ref c =
      if not (in_window now i.sent_at i.expires_at)
      then (
        refused window_over,
        changed
            (record c { invitations = insert i.id (record i { status = expired }) c.invitations }),
      )
      else if (c.policy.require_account && not token_only) && not (same_user account i.user)
      then (refused wrong_account, c)
      else store_vote now choice i i.user p ref c

  unfoldable pub cast_for_status :
      InviteStatus
      → ℕ
      → Choice
      → Invitation
      → Option String
      → Bool
      → Option String
      → Community F P
      → Outcome (Vote F) × Community F P
  unfolding cast_in_window
  cast_for_status voted now choice i account token_only ref c = (refused already_used, c)
  cast_for_status sent now choice i account token_only ref c =
      elim (lookup i.proposal c.proposals) [
        | none ↦ (refused version_changed, c)
        | some p ↦
            if not (p.version == i.version)
            then (refused version_changed, c)
            else if not (is_open p.status)
            then (refused not_open, c)
            else cast_in_window now choice i p account token_only ref c
      ]
  cast_for_status _ now choice i account token_only ref c = (refused not_active, c)

  unfoldable pub cast_for :
      ℕ
      → Choice
      → Invitation
      → Option String
      → Bool
      → Option String
      → Community F P
      → Outcome (Vote F) × Community F P
  unfolding cast_for_status
  cast_for now choice i account token_only ref c =
      cast_for_status i.status now choice i account token_only ref c

  -- `cast_vote`, of a choice that is known
  unfoldable pub cast_vote :
      ℕ
      → String
      → Choice
      → Option String
      → Bool
      → Option String
      → Community F P
      → Outcome (Vote F) × Community F P
  unfolding cast_for find_token
  cast_vote now token choice account token_only ref c = elim (find_token token c.invitations) [
    | none ↦ (refused bad_token, c)
    | some i ↦ cast_for now choice i account token_only ref c
  ]

  unfoldable pub cast_single :
      ℕ
      → Choice
      → List Invitation
      → String
      → Proposal P
      → Option String
      → Community F P
      → Outcome (Vote F) × Community F P
  unfolding store_vote
  cast_single now choice [] user p ref c = (refused no_invitation, c)
  cast_single now choice (i ∷ []) user p ref c = store_vote now choice i user p ref c
  cast_single now choice (i ∷ j ∷ is) user p ref c = (refused many_invitations, c)

  unfoldable pub cast_open :
      ℕ
      → Choice
      → String
      → Proposal P
      → Option String
      → Community F P
      → Outcome (Vote F) × Community F P
  unfolding cast_single active_invitations
  cast_open now choice user p ref c =
      if not (is_open p.status)
      then (refused not_open, c)
      else cast_single now choice (active_invitations now p.id user p.version c.invitations) user p
          ref c

  -- `cast_account_vote`, of a choice that is known
  unfoldable pub cast_account_vote :
      ℕ
      → String
      → Choice
      → String
      → Option String
      → Community F P
      → Outcome (Vote F) × Community F P
  unfolding cast_open
  cast_account_vote now id choice account_id ref c =
      let user = strip account_id in
      elim (lookup user c.accounts) [
        | none ↦ (refused no_account, c)
        | some account ↦
            if not account.active then (refused no_account, c) else elim (lookup id c.proposals) [
              | none ↦ (refused not_open, c)
              | some p ↦ cast_open now choice user p ref c
            ]
      ]
