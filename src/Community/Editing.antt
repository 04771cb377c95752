-- ===== src/Community/Editing.antt =====
-- `update_proposal` of backend/community_governance.py: the status first, then the text and the change,
-- which make a new version.
use stageforge.Prelude.{
  ℕ, ◌+◌, String, Bool, true, false, not, ◌&&◌, ◌||◌, if◌then◌else◌, Option, none, some, List, [],
  ◌∷◌,
}
use stageforge.Prelude.Text.{clip, strip}
use stageforge.Prelude.Dict.{lookup, insert}
use stageforge.Community.Records.{Arithmetic, ProposalStatus, adopted, Proposal, Community}
use stageforge.Community.Tally.{Blocker, tally_of}
use stageforge.Community.Ballots.{
  Outcome, done, refused, no_proposal, bad_change, bad_status, record_unfinished, frozen_text,
  windows_active, not_ready, changed,
}
use stageforge.Community.Proposals.{
  ChangeInput, ProposalEdit, is_given, change_record, recorded_proposal, same_status, read_status,
  is_material, is_frozen, closes, has_active, ratify,
}

abbrev pub replaced : ℕ → Option String → String → String
replaced n none old = old
replaced n (some new) old = clip n (strip new)

-- The texts that an edit gives, one key after another
unfoldable pub retitled : {P : Type 0} → ProposalEdit P → Proposal P → Proposal P
retitled e p = record p {
  title = replaced 240 e.title p.title;
  description = replaced 4000 e.description p.description;
  scope = replaced 80 e.scope p.scope;
}

abbrev pub next_version : {P : Type 0} → ℕ → Proposal P → Proposal P
next_version now p = record p { version = p.version + 1; updated_at = some now }

-- The change that an edit gives. A bad one is an error, after the texts are replaced.
unfoldable pub new_change :
    {P : Type 0} → (String → P → String) → Option (ChangeInput P) → Proposal P → Option (Proposal P)
unfolding change_record
new_change hash none p = some p
new_change hash (some i) p = elim (change_record hash i) [
  | none ↦ none
  | some change ↦ some (record p { change = change; applied_at = none })
]

-- The proposal after the adoption, which waits for the tally
unfoldable pub adopt_when :
    {P : Type 0} → List Blocker → Bool → Option String → Proposal P → Outcome (Proposal P)
adopt_when [] recording r p = ratify recording r p
adopt_when (b ∷ bs) recording r p = refused (not_ready (b ∷ bs))

module _ {F P : Type 0} (arithmetic : Arithmetic F) where
  -- Another status
  unfoldable pub move_to :
      ℕ → ProposalStatus → Option String → Proposal P → Community F P → Outcome (Proposal P)
  unfolding adopt_when
  move_to now adopted ratified p c =
      if same_status adopted p.status
      then done p
      else adopt_when (tally_of arithmetic now p c).blockers c.recording ratified p
  move_to now t ratified p c =
      if same_status t p.status
      then done p
      else if closes t && has_active now p.id p.version c.invitations
      then refused windows_active
      else done (record p { status = t })

  unfoldable pub restatus :
      ℕ → Option String → Option String → Proposal P → Community F P → Outcome (Proposal P)
  unfolding move_to read_status
  restatus now none ratified p c = done p
  restatus now (some s) ratified p c = elim (read_status s) [
    | none ↦ refused bad_status
    | some t ↦ move_to now t ratified p c
  ]

module _ {F P : Type 0} (change_hash : String → P → String) where
  -- The end of an edit: `p` is the proposal as it was, `q` as it has become.
  unfoldable pub store_edit :
      Bool
      → Option String
      → String
      → Proposal P
      → Proposal P
      → Community F P
      → Outcome (Proposal P) × Community F P
  store_edit material ref id p q c =
      if material
      then (
        done (recorded_proposal c.recording ref q),
        changed
            (record c { proposals = insert id (recorded_proposal c.recording ref q) c.proposals }),
      )
      else if not (same_status q.status p.status)
      then (done q, changed (record c { proposals = insert id q c.proposals }))
      else (done q, c)

  -- The text and the change, on the proposal `q` with its new status
  unfoldable pub edit_text :
      ℕ
      → ProposalEdit P
      → Option String
      → String
      → Proposal P
      → Proposal P
      → Community F P
      → Outcome (Proposal P) × Community F P
  unfolding store_edit new_change retitled is_material
  edit_text now e ref id p q c =
      if not (is_material e)
      then store_edit false ref id p q c
      else elim (new_change change_hash e.change (retitled e q)) [
        | none ↦ (refused bad_change, record c { proposals = insert id (retitled e q) c.proposals })
        | some r ↦ store_edit true ref id p (next_version now r) c
      ]

  unfoldable pub edit_after :
      ℕ
      → ProposalEdit P
      → Option String
      → String
      → Proposal P
      → Outcome (Proposal P)
      → Community F P
      → Outcome (Proposal P) × Community F P
  unfolding edit_text
  edit_after now e ref id p (refused r) c = (refused r, c)
  edit_after now e ref id p (done q) c = edit_text now e ref id p q c

module _ {F P : Type 0} (arithmetic : Arithmetic F) (change_hash : String → P → String) where
  unfoldable pub edit_proposal :
      ℕ
      → String
      → ProposalEdit P
      → Option String
      → Option String
      → Proposal P
      → Community F P
      → Outcome (Proposal P) × Community F P
  unfolding edit_after restatus is_material is_frozen
  edit_proposal now id e ratified ref p c =
      if c.recording && (p.record_pending && (is_given e.status || is_material e))
      then (refused record_unfinished, c)
      else if is_frozen p e
      then (refused frozen_text, c)
      else edit_after change_hash now e ref id p (restatus arithmetic now e.status ratified p c) c

  -- `update_proposal`
  unfoldable pub update_proposal :
      ℕ
      → String
      → ProposalEdit P
      → Option String
      → Option String
      → Community F P
      → Outcome (Proposal P) × Community F P
  unfolding edit_proposal
  update_proposal now id e ratified ref c = elim (lookup id c.proposals) [
    | none ↦ (refused no_proposal, c)
    | some p ↦ edit_proposal now id e ratified ref p c
  ]
