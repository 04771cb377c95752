-- ===== src/Community/Permanence/Edits.antt =====
-- `update_proposal` keeps what lasts: it leaves an adopted proposal as it is.
use stageforge.Prelude.{
  ℕ, ◌≡◌, ◌≢◌, refl, sym, ap, ◌∙◌, String, Bool, Bool-cases, true, false, not, ◌&&◌, ◌||◌, Option,
  none, some, inl, inr, arith,
}
use stageforge.Prelude.Text.{strip, lower_is}
use mathlib.Core.Bool.{false≢true}
use stageforge.Prelude.Dict.{lookup}
use stageforge.Community.Records.{
  Arithmetic, ProposalStatus, open_, closed, adopted, rejected, superseded, Proposal, Community,
}
use stageforge.Community.Ballots.{Outcome, done, refused}
use stageforge.Community.Proposals.{
  ProposalEdit, is_given, recorded_proposal, same_status, read_status, is_material, is_frozen,
  asks_adopted,
}
use stageforge.Community.Editing.{
  retitled, next_version, new_change, move_to, restatus, store_edit, edit_text, edit_after,
  edit_proposal, update_proposal,
}
use stageforge.Community.Permanence.{Settled, one_proposal-Lasting}
use stageforge.Community.Permanence.Leading.{
  Leads, either_Leads, tested_Leads, found_Leads, refused_Leads, gives_Leads, next_Survives,
}

pub same_status_adopted : (s : ProposalStatus) → same_status s adopted ≡ true → s ≡ adopted
same_status_adopted open_ h = ground arith
same_status_adopted closed h = ground arith
same_status_adopted adopted h = refl
same_status_adopted rejected h = ground arith
same_status_adopted superseded h = ground arith

-- A proposal that is not adopted settles nothing.
unsettled_Settled :
    {P : Type 0} (p q : Proposal P) → same_status p.status adopted ≡ false → Settled p q
unsettled_Settled p q h =
    let no : p.status ≢ adopted = λ e. false≢true (sym h ∙ ap (λ s. same_status s adopted) e) in
    record {
      status = λ e. elim (no e) [ ];
      version = λ e. elim (no e) [ ];
      title = λ e. elim (no e) [ ];
      description = λ e. elim (no e) [ ];
      scope = λ e. elim (no e) [ ];
      change = λ e. elim (no e) [ ];
      applied = λ e. elim (no e) [ ];
    }

not_closed : (t : String) → lower_is t "adopted" ≡ true → lower_is t "closed" ≡ false
unfolding lower_is
not_closed String.[] h = ground arith
not_closed (String.◌∷◌ c t) h = ground arith

not_open_ : (t : String) → lower_is t "adopted" ≡ true → lower_is t "open" ≡ false
unfolding lower_is
not_open_ String.[] h = ground arith
not_open_ (String.◌∷◌ c t) h = ground arith

-- No text but `adopted` names that status, and it names no other.
adopted-read_status :
    (s : String) → lower_is (strip s) "adopted" ≡ true → read_status s ≡ some adopted
unfolding read_status
adopted-read_status s h = rw (not_open_ (strip s) h, not_closed (strip s) h, h) refl

module _ {F P : Type 0} (arithmetic : Arithmetic F) where
  move_to-adopted :
      (now : ℕ) (ratified : Option String) (p : Proposal P) (c : Community F P)
      → p.status ≡ adopted
      → move_to arithmetic now adopted ratified p c ≡ done p
  unfolding move_to
  move_to-adopted now ratified p c h = rw (h, move_to) refl

  restatus-adopted :
      (now : ℕ) (s : Option String) (ratified : Option String) (p : Proposal P) (c : Community F P)
      → p.status ≡ adopted
      → asks_adopted s ≡ true
      → restatus arithmetic now s ratified p c ≡ done p
  unfolding restatus
  restatus-adopted now none ratified p c h g = refl
  restatus-adopted now (some s) ratified p c h g =
      rw (adopted-read_status s g, restatus) (move_to-adopted now ratified p c h)

  module _ (change_hash : String → P → String) where
    -- The proposal as it was, and as it becomes
    module _ (now : ℕ) (id : String) (e : ProposalEdit P) (ref : Option String) (p : Proposal P)
        (c : Community F P) (found : lookup id c.proposals ≡ some p) where
      store_edit-Leads :
          (material : Bool) (q : Proposal P)
          → same_status p.status adopted ≡ false
          → Leads c (store_edit change_hash material ref id p q c)
      unfolding store_edit
      store_edit-Leads material q h =
          let r = recorded_proposal c.recording ref q in
          either_Leads material c _ _
            (gives_Leads _ c _ (
              one_proposal-Lasting id r c _
                (next_Survives Settled (lookup id c.proposals) p r found (unsettled_Settled p r h))
                refl refl))
            (either_Leads (not (same_status q.status p.status)) c _ _
              (gives_Leads _ c _ (
                one_proposal-Lasting id q c _
                  (next_Survives Settled (lookup id c.proposals) p q found
                    (unsettled_Settled p q h))
                  refl refl))
              (refused_Leads c _))

      edit_text-Leads :
          (q : Proposal P)
          → same_status p.status adopted ≡ false
          → Leads c (edit_text change_hash now e ref id p q c)
      unfolding edit_text
      edit_text-Leads q h =
          let r = retitled e q in
          either_Leads (not (is_material e)) c _ _ (store_edit-Leads false q h) (
            found_Leads (new_change change_hash e.change r) c _ _
              (λ g. gives_Leads _ c _ (
                one_proposal-Lasting id r c _
                  (next_Survives Settled (lookup id c.proposals) p r found
                    (unsettled_Settled p r h))
                  refl refl))
              (λ t g. store_edit-Leads true (next_version now t) h))

      after_Leads :
          (o : Outcome (Proposal P))
          → same_status p.status adopted ≡ false
          → Leads c (edit_after change_hash now e ref id p o c)
      unfolding edit_after
      after_Leads (refused r) h = refused_Leads c _
      after_Leads (done q) h = edit_text-Leads q h

      -- What an adopted proposal still allows changes nothing.
      kept_Leads :
          (ratified : Option String)
          → p.status ≡ adopted
          → is_material e ≡ false
          → asks_adopted e.status ≡ true
          → Leads c (
              edit_after change_hash now e ref id p
                (restatus arithmetic now e.status ratified p c)
                c)
      unfolding edit_after edit_text store_edit
      kept_Leads ratified h m a =
          rw (restatus-adopted now e.status ratified p c h a, edit_after)
            (rw (m, edit_text) (rw (h, store_edit) (refused_Leads c _)))

      edit_proposal-Leads :
          (ratified : Option String)
          → Leads c (edit_proposal arithmetic change_hash now id e ratified ref p c)
      unfolding edit_proposal is_frozen
      edit_proposal-Leads ratified =
          either_Leads (c.recording && (p.record_pending && (is_given e.status || is_material e))) c
            _ _ (refused_Leads c _)
            (tested_Leads (is_frozen p e) c _ _ (λ g. refused_Leads c _)
              (λ g. elim (Bool-cases (same_status p.status adopted)) [
                | inr other ↦ after_Leads (restatus arithmetic now e.status ratified p c) other
                | inl same ↦
                    kept_Leads ratified (same_status_adopted p.status same) (ground arith)
                      (ground arith)
              ]))

    -- An edit keeps every vote, and of an adopted proposal everything.
    pub update_proposal-Leads :
        (now : ℕ) (id : String) (e : ProposalEdit P) (ratified ref : Option String)
        (c : Community F P)
        → Leads c (update_proposal arithmetic change_hash now id e ratified ref c)
    unfolding update_proposal
    update_proposal-Leads now id e ratified ref c =
        found_Leads (lookup id c.proposals) c _ _ (λ g. refused_Leads c _)
          (λ p g. edit_proposal-Leads now id e ref p c g ratified)
