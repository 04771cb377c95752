-- ===== src/Community/Ratification.antt =====
-- How `update_proposal` adopts a proposal
use stageforge.Prelude.{
  ℕ, ◌+◌, ◌≡◌, ◌≢◌, refl, sym, ap, subst, ◌∙◌, String, Bool, Bool-cases, true, false, not, ◌&&◌,
  ◌||◌, if◌then◌else◌, Option, none, some, List, [], ◌∷◌, inl, inr, arith, str_eq_refl,
}
use mathlib.Core.Bool.{false≢true}
use stageforge.Prelude.Dict.{lookup, insert, lookup-insert}
use stageforge.Prelude.Cases.{by_test, by_option}
use stageforge.Community.Records.{
  Arithmetic, ProposalStatus, open_, closed, adopted, rejected, superseded, Change, Proposal,
  Community,
}
use stageforge.Community.Tally.{Blocker, tally_of}
use stageforge.Community.Ballots.{Refusal, Outcome, done, refused, windows_active}
use stageforge.Community.Proposals.{
  ChangeInput, ProposalEdit, is_given, same_status, read_status, change_record, is_material,
  is_frozen, closes, has_active, recorded_proposal, ratify,
}
use stageforge.Community.Editing.{
  retitled, next_version, new_change, adopt_when, move_to, restatus, store_edit, edit_text,
  edit_after, edit_proposal, update_proposal,
}
pub mod Gate

module _ {F P : Type 0} (arithmetic : Arithmetic F) (now : ℕ) (p : Proposal P)
    (c : Community F P) where
  -- A new status is `adopted` only after a tally without blockers.
  unfoldable pub Waits : Outcome (Proposal P) → Type 0
  Waits (refused r) = Unit {0}
  Waits (done q) = same_status q.status adopted ≡ true → (tally_of arithmetic now p c).blockers ≡ []

  ratify-Waits :
      (recording : Bool) (ratified : Option String)
      → (tally_of arithmetic now p c).blockers ≡ []
      → Waits (ratify recording ratified p)
  unfolding Waits
  ratify-Waits false ratified b = λ a. b
  ratify-Waits true none b = tt
  ratify-Waits true (some r) b = λ a. b

  adopt_when-Waits :
      (ratified : Option String) (bs : List Blocker)
      → (tally_of arithmetic now p c).blockers ≡ bs
      → Waits (adopt_when bs c.recording ratified p)
  unfolding Waits adopt_when
  adopt_when-Waits ratified (k ∷ ks) b = tt
  adopt_when-Waits ratified [] b = ratify-Waits c.recording ratified b

  module _ (before : same_status p.status adopted ≡ false) where
    kept_Waits : Waits (done p)
    unfolding Waits
    kept_Waits a = elim (false≢true (sym before ∙ a)) [ ]

    other_Waits :
        (t : ProposalStatus) (l : Bool)
        → same_status t adopted ≡ false
        → Waits (
            if same_status t p.status
            then done p
            else if l
            then refused windows_active
            else done (record p { status = t }))
    unfolding Waits
    other_Waits t l h =
        by_test Waits (same_status t p.status) _ _ (λ e. kept_Waits)
          (λ e. by_test Waits l _ _ (λ f. tt) (λ f a. elim (false≢true (sym h ∙ a)) [ ]))

    move_to-Waits :
        (t : ProposalStatus) (ratified : Option String)
        → Waits (move_to arithmetic now t ratified p c)
    unfolding move_to
    move_to-Waits adopted ratified =
        by_test Waits (same_status adopted p.status) _ _ (λ e. kept_Waits)
          (λ e. adopt_when-Waits ratified (tally_of arithmetic now p c).blockers refl)
    move_to-Waits open_ ratified =
        other_Waits open_ (closes open_ && has_active now p.id p.version c.invitations) refl
    move_to-Waits closed ratified =
        other_Waits closed (closes closed && has_active now p.id p.version c.invitations) refl
    move_to-Waits rejected ratified =
        other_Waits rejected (closes rejected && has_active now p.id p.version c.invitations) refl
    move_to-Waits superseded ratified =
        other_Waits superseded (closes superseded && has_active now p.id p.version c.invitations)
          refl

    pub restatus-Waits :
        (s : Option String) (ratified : Option String)
        → Waits (restatus arithmetic now s ratified p c)
    unfolding restatus Waits
    restatus-Waits none ratified = kept_Waits
    restatus-Waits (some s) ratified =
        by_option Waits (read_status s) _ _ (λ e. tt) (λ t e. move_to-Waits t ratified)

from_open_ : (t : ProposalStatus) → same_status open_ t ≡ true → open_ ≡ t
from_open_ open_ h = refl
from_open_ closed h = ground arith
from_open_ adopted h = ground arith
from_open_ rejected h = ground arith
from_open_ superseded h = ground arith

from_closed : (t : ProposalStatus) → same_status closed t ≡ true → closed ≡ t
from_closed open_ h = ground arith
from_closed closed h = refl
from_closed adopted h = ground arith
from_closed rejected h = ground arith
from_closed superseded h = ground arith

from_adopted : (t : ProposalStatus) → same_status adopted t ≡ true → adopted ≡ t
from_adopted open_ h = ground arith
from_adopted closed h = ground arith
from_adopted adopted h = refl
from_adopted rejected h = ground arith
from_adopted superseded h = ground arith

from_rejected : (t : ProposalStatus) → same_status rejected t ≡ true → rejected ≡ t
from_rejected open_ h = ground arith
from_rejected closed h = ground arith
from_rejected adopted h = ground arith
from_rejected rejected h = refl
from_rejected superseded h = ground arith

from_superseded : (t : ProposalStatus) → same_status superseded t ≡ true → superseded ≡ t
from_superseded open_ h = ground arith
from_superseded closed h = ground arith
from_superseded adopted h = ground arith
from_superseded rejected h = ground arith
from_superseded superseded h = refl

same_status_eq : (s t : ProposalStatus) → same_status s t ≡ true → s ≡ t
same_status_eq open_ t h = from_open_ t h
same_status_eq closed t h = from_closed t h
same_status_eq adopted t h = from_adopted t h
same_status_eq rejected t h = from_rejected t h
same_status_eq superseded t h = from_superseded t h

unfoldable pub ap_status : {P : Type 0} → Option (Proposal P) → Option ProposalStatus
ap_status none = none
ap_status (some p) = some p.status

recorded_proposal-status :
    {P : Type 0} (b : Bool) (r : Option String) (p : Proposal P)
    → (recorded_proposal b r p).status ≡ p.status
recorded_proposal-status false r p = refl
recorded_proposal-status true none p = refl
recorded_proposal-status true (some r) p = refl

module _ {F P : Type 0} (id : String) (s : ProposalStatus) where
  -- The status of a proposal in the state that an operation leaves
  unfoldable pub HasStatus {ℓ} : {B : Type ℓ} → B × Community F P → Type 0
  HasStatus r = ap_status (lookup id r.1.proposals) ≡ some s

  inserted_HasStatus {ℓ} :
      {B : Type ℓ} (b : B) (q : Proposal P) (c d : Community F P)
      → q.status ≡ s
      → insert id q c.proposals ≡ d.proposals
      → HasStatus (b, d)
  unfolding HasStatus ap_status
  inserted_HasStatus b q c d h e =
      ap (λ x. ap_status (lookup id x)) (sym e)
      ∙ (ap ap_status (lookup-insert id id q c.proposals) ∙ rw (str_eq_refl id) (ap some h))

module _ {F P : Type 0} (change_hash : String → P → String) (now : ℕ) (id : String)
    (e : ProposalEdit P) (ref : Option String) (p : Proposal P) (c : Community F P)
    (found : lookup id c.proposals ≡ some p) where
  pub kept_HasStatus {ℓ} :
      {B : Type ℓ} (b : B) (s : ProposalStatus) → s ≡ p.status → HasStatus id s (b, c)
  unfolding HasStatus ap_status
  kept_HasStatus b s h = ap ap_status found ∙ ap some (sym h)

  store_edit-HasStatus :
      (material : Bool) (q : Proposal P)
      → HasStatus id q.status (store_edit change_hash material ref id p q c)
  unfolding store_edit
  store_edit-HasStatus material q =
      by_test (HasStatus id q.status) material _ _
        (λ m.
          inserted_HasStatus id q.status _ (recorded_proposal c.recording ref q) c _
            (recorded_proposal-status c.recording ref q) refl)
        (λ m.
          by_test (HasStatus id q.status) (not (same_status q.status p.status)) _ _
            (λ n. inserted_HasStatus id q.status _ q c _ refl refl)
            (λ n. kept_HasStatus _ q.status (same_status_eq q.status p.status (ground arith))))

  change_status :
      (i : Option (ChangeInput P)) (q r : Proposal P)
      → new_change change_hash i q ≡ some r
      → r.status ≡ q.status
  unfolding new_change
  change_status none q r h = ground arith
  change_status (some i) q r h = ground arith

  pub edit_text-HasStatus :
      (q : Proposal P) → HasStatus id q.status (edit_text change_hash now e ref id p q c)
  unfolding edit_text retitled
  edit_text-HasStatus q =
      by_test (HasStatus id q.status) (not (is_material e)) _ _ (λ m. store_edit-HasStatus false q)
        (λ m.
          by_option (HasStatus id q.status) (new_change change_hash e.change (retitled e q)) _ _
            (λ n. inserted_HasStatus id q.status _ (retitled e q) c _ refl refl)
            (λ r n.
              subst
                (λ s. HasStatus id s (store_edit change_hash true ref id p (next_version now r) c))
                (change_status e.change (retitled e q) r n)
                (store_edit-HasStatus true (next_version now r))))
