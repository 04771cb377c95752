-- ===== src/Community/History.antt =====
-- The operations of backend/community_governance.py, one after another. `issue_vote_emails` is an event
-- that prepares the invitations and one for the sending of each, with others between them.
use stageforge.Prelude.{ℕ, String, Bool, Option, none, some, List, [], ◌∷◌}
use stageforge.Prelude.Int.{ℤ}
use stageforge.Prelude.Dict.{lookup}
use stageforge.Community.Records.{
  Arithmetic, Choice, pending_send, Invitation, Community, PolicyPatch,
}
use stageforge.Community.Ballots.{Ask, prepare_votes, deliver_vote}
use stageforge.Community.Casting.{cast_vote, cast_account_vote}
use stageforge.Community.Proposals.{Draft, ProposalEdit, create_proposal}
use stageforge.Community.Editing.{update_proposal}
use stageforge.Community.Accounts.{
  upsert_account, revoke_account_sessions, mark_change_applied, patch_policy,
  apply_ratified_governance_policy,
}
use stageforge.Community.Publishing.{Posts, reconcile_public_record}

pub data Event (F P : Type 0) : Type 0 where
  account_given : (id email : String) (active : Option Bool) → Event F P
  sessions_revoked : (id : String) → Event F P
  policy_patched : (q : PolicyPatch F) → Event F P
  proposed : (fresh : String) (d : Draft P) (ref : Option String) → Event F P
  edited : (id : String) (e : ProposalEdit P) (ratified ref : Option String) → Event F P
  asked : (id : String) (asks : List Ask) (window : Option ℤ) → Event F P
  delivered_to : (id : String) (good : Bool) (ref : Option String) → Event F P
  token_cast :
      (token : String) (choice : Choice) (account : Option String) (token_only : Bool)
      (ref : Option String)
      → Event F P
  account_cast : (id : String) (choice : Choice) (user : String) (ref : Option String) → Event F P
  change_marked : (id : String) → Event F P
  policy_applied : (id : String) → Event F P
  reconciled : (id : Option String) (post : Posts) → Event F P

-- An invitation is sent once, when it is pending.
abbrev pub deliverable :
    {F P : Type 0} → Option Invitation → Community F P → Community F P → Community F P
deliverable none c d = c
deliverable (some i) c d = elim i.status [ pending_send ↦ d | _ ↦ c ]

module _ {F P : Type 0} (arithmetic : Arithmetic F) (change_hash : String → P → String)
    (read : P → PolicyPatch F) where
  unfoldable pub happen : Event F P → ℕ → Community F P → Community F P
  happen (account_given id email active) now c = (upsert_account id email active c).1
  happen (sessions_revoked id) now c = (revoke_account_sessions id c).1
  happen (policy_patched q) now c = patch_policy arithmetic q c
  happen (proposed fresh d ref) now c = (create_proposal change_hash now fresh d ref c).1
  happen (edited id e ratified ref) now c =
      (update_proposal arithmetic change_hash now id e ratified ref c).1
  happen (asked id asks window) now c = (prepare_votes id asks window c).1
  happen (delivered_to id good ref) now c =
      deliverable (lookup id c.invitations) c (deliver_vote id good now ref c)
  happen (token_cast token choice account token_only ref) now c =
      (cast_vote arithmetic now token choice account token_only ref c).1
  happen (account_cast id choice user ref) now c =
      (cast_account_vote arithmetic now id choice user ref c).1
  happen (change_marked id) now c = (mark_change_applied now id c).1
  happen (policy_applied id) now c = (apply_ratified_governance_policy arithmetic read now id c).1
  happen (reconciled id post) now c = (reconcile_public_record post id c).1

  -- Each event comes with the time of the clock then.
  unfoldable pub run : List (ℕ × Event F P) → Community F P → Community F P
  unfolding happen
  run [] c = c
  run ((now, e) ∷ es) c = run es (happen e now c)
