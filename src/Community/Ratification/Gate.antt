-- ===== src/Community/Ratification/Gate.antt =====
-- What `update_proposal` asks for before a proposal is adopted, and what it adopts
use stageforge.Prelude.{
  ℕ, ◌+◌, ◌≡◌, refl, sym, ap, ◌∙◌, String, true, false, ◌&&◌, ◌||◌, Option, none, some, [], arith,
}
use mathlib.Core.Bool.{false≢true}
use stageforge.Prelude.Text.{strip, lower_is}
use stageforge.Prelude.Dict.{lookup}
use stageforge.Prelude.Cases.{by_test}
use stageforge.Community.Records.{
  Arithmetic, ProposalStatus, open_, adopted, Change, Proposal, Community,
}
use stageforge.Community.Tally.{tally_of}
use stageforge.Community.Ballots.{Outcome, done, refused}
use stageforge.Community.Proposals.{
  ChangeInput, ProposalEdit, is_given, same_status, read_status, change_record, is_material,
  is_frozen, recorded_proposal, ratify,
}
use stageforge.Community.Editing.{
  restatus, move_to, adopt_when, new_change, retitled, store_edit, edit_text, edit_after,
  edit_proposal, update_proposal,
}
use stageforge.Community.Adoption.{IsReady, no_blockers-IsReady}
use stageforge.Community.Ratification.{
  Waits, restatus-Waits, HasStatus, ap_status, edit_text-HasStatus,
}

one_status : (o : Option ProposalStatus) (s t : ProposalStatus) → o ≡ some s → o ≡ some t → s ≡ t
one_status o s t f g = ground arith

module _ {F P : Type 0} (arithmetic : Arithmetic F) (change_hash : String → P → String) (now : ℕ)
    (id : String) (e : ProposalEdit P) (ratified ref : Option String) (c : Community F P)
    (p : Proposal P) (found : lookup id c.proposals ≡ some p)
    (before : same_status p.status adopted ≡ false) where
  Asks {ℓ} : {B : Type ℓ} → B × Community F P → Type 0
  Asks r = HasStatus id adopted r → (tally_of arithmetic now p c).blockers ≡ []

  kept_Asks {ℓ} : {B : Type ℓ} (b : B) → Asks (b, c)
  unfolding Asks HasStatus ap_status
  kept_Asks b a =
      let h =
        one_status (ap_status (lookup id c.proposals)) p.status adopted (ap ap_status found) a in
      elim (false≢true (sym before ∙ ap (λ s. same_status s adopted) h)) [ ]

  after_Asks :
      (o : Outcome (Proposal P))
      → Waits arithmetic now p c o
      → Asks (edit_after change_hash now e ref id p o c)
  unfolding Asks edit_after Waits HasStatus
  after_Asks (refused r) w a = kept_Asks {B = Outcome (Proposal P)} (refused r) a
  after_Asks (done q) w a =
      let r = edit_text change_hash now e ref id p q c in
      let h =
        one_status (ap_status (lookup id r.1.proposals)) q.status adopted
          (edit_text-HasStatus change_hash now id e ref p c found q) a in
      w (ap (λ s. same_status s adopted) h)

  edit_proposal-Asks : Asks (edit_proposal arithmetic change_hash now id e ratified ref p c)
  unfolding edit_proposal
  edit_proposal-Asks =
      by_test Asks (c.recording && (p.record_pending && (is_given e.status || is_material e))) _ _
        (λ b. kept_Asks _)
        (λ b.
          by_test Asks (is_frozen p e) _ _ (λ b. kept_Asks _)
            (λ b.
              after_Asks (restatus arithmetic now e.status ratified p c)
                (restatus-Waits arithmetic now p c before e.status ratified)))

  update_proposal-Asks : Asks (update_proposal arithmetic change_hash now id e ratified ref c)
  unfolding update_proposal
  update_proposal-Asks = rw (found, update_proposal) edit_proposal-Asks

  -- `update_proposal` makes a proposal that was not adopted an adopted one only when the votes on the version
  -- before the edit reach every minimum of the policy, their windows are closed where the policy asks for
  -- it, and all of it is on the public record where one is attached. It holds of the errors too.
  pub update_adopts :
      (q : Proposal P)
      → lookup id (update_proposal arithmetic change_hash now id e ratified ref c).1.proposals
        ≡ some q
      → q.status ≡ adopted
      → IsReady arithmetic now p c
  unfolding Asks HasStatus ap_status
  update_adopts q after h =
      no_blockers-IsReady arithmetic now p c (update_proposal-Asks (ap ap_status after ∙ ap some h))

read_adopted : read_status "adopted" ≡ some adopted
unfolding read_status strip lower_is
read_adopted = refl

module _ {F P : Type 0} (arithmetic : Arithmetic F) (change_hash : String → P → String) (now : ℕ)
    (id : String) (i : ChangeInput P) (change : Option (Change P)) (ratified ref : Option String)
    (p : Proposal P) (c : Community F P) where
  open_adopts :
      p.status ≡ open_
      → c.recording ≡ false
      → (tally_of arithmetic now p c).blockers ≡ []
      → restatus arithmetic now (some "adopted") ratified p c ≡ done (record p { status = adopted })
  unfolding restatus
  open_adopts o r b =
      let e = ap (λ s. same_status adopted s) o in
      rw (read_adopted, restatus)
        (rw (e, move_to) (rw (b, adopt_when) (ap (λ t. ratify t ratified p) r)))

  -- The edit
  adopting : ProposalEdit P
  adopting = record {
    status = some "adopted";
    title = none;
    description = none;
    scope = none;
    change = some i;
  }

  with_change : Proposal P
  with_change = record p {
    status = adopted;
    change = change;
    applied_at = none;
    version = p.version + 1;
    updated_at = some now;
  }

  edit_text-adopting :
      change_record change_hash i ≡ some change
      → c.recording ≡ false
      → (edit_text change_hash now adopting ref id p (record p { status = adopted }) c).0
        ≡ done with_change
  unfolding edit_text is_material new_change retitled store_edit adopting with_change
  edit_text-adopting h r =
      rw (h, new_change) (ap (λ t. done (recorded_proposal t ref with_change)) r)

  edit_proposal-adopting :
      p.status ≡ open_
      → c.recording ≡ false
      → (tally_of arithmetic now p c).blockers ≡ []
      → change_record change_hash i ≡ some change
      → (edit_proposal arithmetic change_hash now id adopting ratified ref p c).0 ≡ done with_change
  unfolding edit_proposal is_frozen adopting
  edit_proposal-adopting o r b h =
      rw
        (
          ap (λ t. t && (p.record_pending && true)) r,
          ap (λ s. same_status s adopted) o,
          open_adopts o r b,
        )
        (edit_text-adopting h r)

-- An edit that asks for the status `adopted` and gives a new change at once, of an open proposal whose votes
-- leave no blocker, where no public record is attached and the change is well-formed: the new change is
-- adopted, as a new version, on the votes for the version before.
pub update_adopts_unvoted :
    {F P : Type 0} (arithmetic : Arithmetic F) (change_hash : String → P → String) (now : ℕ)
    (id : String) (i : ChangeInput P) (change : Option (Change P)) (ratified ref : Option String)
    (p : Proposal P) (c : Community F P)
    → lookup id c.proposals ≡ some p
    → p.status ≡ open_
    → c.recording ≡ false
    → (tally_of arithmetic now p c).blockers ≡ []
    → change_record change_hash i ≡ some change
    → (update_proposal arithmetic change_hash now id
        (record {
          status = some "adopted";
          title = none;
          description = none;
          scope = none;
          change = some i;
        })
        ratified
        ref
        c).0
      ≡ done (record p {
        status = adopted;
        change = change;
        applied_at = none;
        version = p.version + 1;
        updated_at = some now;
      })
unfolding update_proposal adopting with_change
update_adopts_unvoted arithmetic change_hash now id i change ratified ref p c found o r b h =
    rw (found, update_proposal)
      (edit_proposal-adopting arithmetic change_hash now id i change ratified ref p c o r b h)
