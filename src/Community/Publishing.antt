-- ===== src/Community/Publishing.antt =====
-- `reconcile_public_record` of backend/community_governance.py. What appending to the public record gives
-- for each proposal, invitation or vote is an argument: `none` where it fails.
use stageforge.Prelude.{
  ℕ, ◌+◌, ◌==◌, String, str_eq, Bool, true, false, ◌&&◌, ◌||◌, if◌then◌else◌, Option, none, some,
  List, [], ◌∷◌,
}
use stageforge.Prelude.Dict.{Dict, lookup, insert}
use stageforge.Prelude.Keeping.{map_values}
use stageforge.Community.Records.{Proposal, Invitation, Vote, Community}
use stageforge.Community.Tally.{is_missing}
use stageforge.Community.Ballots.{
  Outcome, done, refused, no_proposal, recorded_invitation, recorded_vote,
}
use stageforge.Community.Proposals.{is_given, recorded_proposal}

pub data Posted : Type 0 where
  proposal_version vote_invitation ballot : Posted

abbrev pub Posts : Type 0
Posts = Posted → String → Option String

-- `publicRecordPending or not publicRecordRef`
abbrev pub is_unposted : Bool → Option String → Bool
is_unposted pending ref = pending || is_missing ref

unfoldable pub post_proposal : {P : Type 0} → Posts → Proposal P → Proposal P
post_proposal post p =
    if is_unposted p.record_pending p.record_ref
    then recorded_proposal true (post proposal_version p.id) p
    else p

unfoldable pub owes_invitation : String → ℕ → Invitation → Bool
owes_invitation p n i =
    str_eq i.proposal p && (i.version == n && is_unposted i.record_pending i.record_ref)

unfoldable pub post_invitation : Posts → String → ℕ → Invitation → Invitation
unfolding owes_invitation
post_invitation post p n i =
    if owes_invitation p n i then recorded_invitation true (post vote_invitation i.id) i else i

unfoldable pub owes_vote : {F : Type 0} → String → ℕ → Vote F → Bool
owes_vote p n v =
    str_eq v.proposal p && (v.version == n && is_unposted v.record_pending v.record_ref)

unfoldable pub post_vote : {F : Type 0} → Posts → String → ℕ → Vote F → Vote F
unfolding owes_vote
post_vote post p n v = if owes_vote p n v then recorded_vote true (post ballot v.id) v else v

-- How many values of a dictionary pass a test
unfoldable pub count_values {ℓ} : {A : Type ℓ} → (A → Bool) → Dict A → ℕ
count_values f [] = 0
count_values f ((k, a) ∷ d) = (if f a then 1 else 0) + count_values f d

module _ {F P : Type 0} where
  -- What is missing on the public record about a proposal
  unfoldable pub owed : Community F P → Proposal P → ℕ
  unfolding count_values owes_invitation owes_vote
  owed c p =
      (if is_unposted p.record_pending p.record_ref then 1 else 0)
      + (count_values (λ i. owes_invitation p.id p.version i) c.invitations
          + count_values (λ v. owes_vote p.id p.version v) c.votes)

  -- What of it is published
  unfoldable pub posted : Posts → Community F P → Proposal P → ℕ
  unfolding count_values owes_invitation owes_vote
  posted post c p =
      (if is_unposted p.record_pending p.record_ref && is_given (post proposal_version p.id)
        then 1
        else 0)
      + (count_values
            (λ i. owes_invitation p.id p.version i && is_given (post vote_invitation i.id))
            c.invitations
          + count_values (λ v. owes_vote p.id p.version v && is_given (post ballot v.id)) c.votes)

  -- The body of the loop over the proposals
  unfoldable pub post_all_of : Posts → String → Proposal P → Community F P → Community F P
  unfolding post_proposal post_invitation post_vote map_values
  post_all_of post key p c = record c {
    proposals = insert key (post_proposal post p) c.proposals;
    invitations = map_values (post_invitation post p.id p.version) c.invitations;
    votes = map_values (post_vote post p.id p.version) c.votes;
  }

  -- The loop goes through the identifiers; the proposal that is read is the present one.
  unfoldable pub post_next : Posts → String → Community F P → ℕ × Community F P
  unfolding post_all_of posted
  post_next post key c = elim (lookup key c.proposals) [
    | none ↦ (0, c)
    | some p ↦ (posted post c p, post_all_of post key p c)
  ]

  unfoldable pub post_each : Posts → List String → Community F P → ℕ × Community F P
  unfolding post_next
  post_each post [] c = (0, c)
  post_each post (key ∷ todo) c =
      let (n, d) = post_next post key c in let (m, e) = post_each post todo d in (n + m, e)

  -- What is pending on them in the end
  unfoldable pub owed_all : List String → Community F P → ℕ
  unfolding owed
  owed_all [] c = 0
  owed_all (key ∷ todo) c = elim (lookup key c.proposals) [
    | none ↦ owed_all todo c
    | some p ↦ owed c p + owed_all todo c
  ]

unfoldable pub keys {ℓ} : {A : Type ℓ} → Dict A → List String
keys [] = []
keys ((k, a) ∷ d) = k ∷ keys d

module _ {F P : Type 0} where
  -- The proposals that `reconcile_public_record` goes through
  unfoldable pub chosen : Option String → Community F P → Option (List String)
  unfolding keys
  chosen none c = some (keys c.proposals)
  chosen (some id) c = elim (lookup id c.proposals) [ none ↦ none | some p ↦ some (id ∷ []) ]

pub record Report : Type 0 where
  pub required : Bool
  pub published : ℕ
  pub pending : ℕ

module _ {F P : Type 0} where
  abbrev pub report_of : List String → ℕ × Community F P → Report
  report_of todo r = record { required = true; published = r.0; pending = owed_all todo r.1 }

  unfoldable pub reconcile_chosen :
      Posts → Option (List String) → Community F P → Outcome Report × Community F P
  unfolding post_each owed_all
  reconcile_chosen post none c = (refused no_proposal, c)
  reconcile_chosen post (some todo) c =
      (done (report_of todo (post_each post todo c)), (post_each post todo c).1)

  -- `reconcile_public_record`
  unfoldable pub reconcile_public_record :
      Posts → Option String → Community F P → Outcome Report × Community F P
  unfolding reconcile_chosen chosen
  reconcile_public_record post id c =
      if c.recording
      then reconcile_chosen post (chosen id c) c
      else (done (record { required = false; published = 0; pending = 0 }), c)
