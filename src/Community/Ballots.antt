-- ===== src/Community/Ballots.antt =====
-- The invitations of backend/community_governance.py. `now` is the clock, `ref` what
-- appending to the public record gives: `none` where it fails. The random parts of identifiers and
-- tokens are arguments, and a token is given by its hash.
use stageforge.Prelude.{
  ℕ, ◌+◌, ◌*◌, String, Bool, true, false, not, if◌then◌else◌, Option, none, some, List, [], ◌∷◌,
}
use stageforge.Prelude.Int.{ℤ}
use stageforge.Prelude.Text.{decimal, concat}
use stageforge.Prelude.Dict.{Dict, lookup, insert}
use stageforge.Community.Records.{
  ProposalStatus, open_, pending_send, sent, delivery_failed, Account, Proposal, Invitation, Vote,
  Community, bounded,
}
use stageforge.Community.Tally.{Blocker}

pub data Refusal : Type 0 where
  no_proposal not_open no_account : Refusal
  bad_token not_active already_used version_changed window_over wrong_account already_voted :
      Refusal
  no_invitation many_invitations : Refusal
  no_title id_taken bad_change bad_status record_unfinished frozen_text windows_active : Refusal
  not_ready : List Blocker → Refusal
  ratification_failed not_adopted already_applied no_change other_kind bad_account : Refusal

-- What an operation returns: a value, or the error that it raises
pub data Outcome {ℓ} (A : Type ℓ) : Type ℓ where
  done : A → Outcome A
  refused : Refusal → Outcome A

abbrev pub is_open : ProposalStatus → Bool
is_open open_ = true
is_open _ = false

-- `_changed`
abbrev pub changed : {F P : Type 0} → Community F P → Community F P
changed c = record c { revision = c.revision + 1 }

-- `_record_invitation` and `_record_vote`, where a public record is attached
abbrev pub recorded_invitation : Bool → Option String → Invitation → Invitation
recorded_invitation false ref i = i
recorded_invitation true none i = record i { record_pending = true }
recorded_invitation true (some r) i = record i { record_pending = false; record_ref = some r }

abbrev pub recorded_vote : {F : Type 0} → Bool → Option String → Vote F → Vote F
recorded_vote false ref v = v
recorded_vote true none v = record v { record_pending = true }
recorded_vote true (some r) v = record v { record_pending = false; record_ref = some r }

-- One account that votes are asked of, with the random parts of its invitation
pub record Ask : Type 0 where
  pub user : String
  pub invitation : String
  pub token_hash : String

-- The key of a vote, an `f` string
unfoldable pub vote_id : String → String → ℕ → String
vote_id proposal user version =
    concat ("vote-" ∷ proposal ∷ "-" ∷ user ∷ "-v" ∷ decimal version ∷ [])

-- The invitation that `issue_vote_emails` prepares
unfoldable pub prepared : {P : Type 0} → Proposal P → ℕ → Ask → Account → Invitation
prepared p hours a account = record {
  id = a.invitation;
  proposal = p.id;
  version = p.version;
  user = account.id;
  status = pending_send;
  window_hours = hours;
  sent_at = none;
  expires_at = none;
  token_hash = a.token_hash;
  voted_at = none;
  record_pending = false;
  record_ref = none;
}

-- The loop that prepares them. An account that is missing or inactive ends it with an error, and the
-- invitations before it stay.
unfoldable pub prepare_all :
    {P : Type 0}
    → Proposal P
    → ℕ
    → List Ask
    → Dict Account
    → Dict Invitation
    → Bool × Dict Invitation
unfolding prepared
prepare_all p hours [] accounts d = (true, d)
prepare_all p hours (a ∷ rest) accounts d = elim (lookup a.user accounts) [
  | none ↦ (false, d)
  | some account ↦ elim account.active [
    | false ↦ (false, d)
    | true ↦ prepare_all p hours rest accounts (insert a.invitation (prepared p hours a account) d)
  ]
]

-- The end of the sending of one invitation, under the lock again: the mailer has taken it, or not.
unfoldable pub delivered : Bool → ℕ → Invitation → Invitation
delivered true at i = record i {
  status = sent;
  sent_at = some at;
  expires_at = some (at + i.window_hours * 3600000000);
}
delivered false at i = record i { status = delivery_failed }

module _ {F P : Type 0} where
  -- The first half of `issue_vote_emails`, under the lock
  unfoldable pub prepare_votes :
      String → List Ask → Option ℤ → Community F P → Outcome (Unit {0}) × Community F P
  unfolding prepare_all
  prepare_votes id asks window c = elim (lookup id c.proposals) [
    | none ↦ (refused no_proposal, c)
    | some p ↦
        if not (is_open p.status)
        then (refused not_open, c)
        else let (good, d) =
            prepare_all p (bounded 1 8760 window c.policy.default_window_hours) asks c.accounts
              c.invitations in
          if good
          then (done tt, changed (record c { invitations = d }))
          else (refused no_account, record c { invitations = d })
  ]

  unfoldable pub deliver_vote : String → Bool → ℕ → Option String → Community F P → Community F P
  unfolding delivered
  deliver_vote id good at ref c = elim (lookup id c.invitations) [
    | none ↦ c
    | some i ↦ changed (record c {
      invitations =
          insert id (recorded_invitation c.recording ref (delivered good at i)) c.invitations;
    })
  ]
