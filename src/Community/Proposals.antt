-- ===== src/Community/Proposals.antt =====
-- The proposals of backend/community_governance.py. `change_hash` is the digest of a change, `ratified`
-- what appending the ratification to the public record gives, and `ref` what appending the new version
-- gives: `none` where it fails.
use stageforge.Prelude.{
  ℕ, ◌+◌, ◌*◌, ◌==◌, leb, String, str_eq, Bool, true, false, not, ◌&&◌, ◌||◌, if◌then◌else◌, Option,
  none, some, [], ◌∷◌,
}
use stageforge.Prelude.Text.{clip, strip, is_set, lower_is}
use stageforge.Prelude.Dict.{Dict, lookup, insert}
use stageforge.Community.Records.{
  ProposalStatus, open_, closed, adopted, rejected, superseded, Change, Proposal, Invitation,
  Community, given,
}
use stageforge.Community.Tally.{is_sent}
use stageforge.Community.Ballots.{
  Outcome, done, refused, no_title, id_taken, bad_change, ratification_failed, changed,
}

-- A value for `change`: none, no object, or an object with its kind, and its payload if it is an object
pub data ChangeInput (P : Type 0) : Type 0 where
  null_ not_object : ChangeInput P
  object : (kind : String) (payload : Option P) → ChangeInput P

-- The data of `create_proposal`
pub record Draft (P : Type 0) : Type 0 where
  pub id : Option String
  pub title : String
  pub description : String
  pub scope : Option String
  pub provisional : Bool
  pub change : ChangeInput P

-- The data of `update_proposal`: the keys that are there
pub record ProposalEdit (P : Type 0) : Type 0 where
  pub status : Option String
  pub title : Option String
  pub description : Option String
  pub scope : Option String
  pub change : Option (ChangeInput P)

abbrev pub is_given {ℓ} : {A : Type ℓ} → Option A → Bool
is_given none = false
is_given (some a) = true

-- `_change_record`; `none` is its error.
unfoldable pub change_record :
    {P : Type 0} → (String → P → String) → ChangeInput P → Option (Option (Change P))
change_record hash null_ = some none
change_record hash not_object = none
change_record hash (object kind none) = none
change_record hash (object kind (some payload)) =
    let k = clip 128 (strip kind) in
    if is_set k
    then some (some (record { kind = k; payload = payload; hash = hash k payload }))
    else none

-- `_record_proposal_version`, where a public record is attached
abbrev pub recorded_proposal : {P : Type 0} → Bool → Option String → Proposal P → Proposal P
recorded_proposal false ref p = p
recorded_proposal true none p = record p { record_pending = true }
recorded_proposal true (some r) p = record p { record_pending = false; record_ref = some r }

abbrev pub or_fresh : Option String → String → String
or_fresh none fresh = fresh
or_fresh (some s) fresh = if is_set s then s else fresh

-- The proposal that `create_proposal` makes
unfoldable pub new_proposal :
    {P : Type 0} → ℕ → String → Draft P → Option (Change P) → ℕ → Proposal P
new_proposal now id d change days = record {
  id = id;
  version = 1;
  title = clip 240 (strip d.title);
  description = clip 4000 (strip d.description);
  scope = clip 80 (strip (given d.scope "platform-change"));
  created_at = now;
  updated_at = none;
  status = open_;
  provisional_expires = if d.provisional then some (now + days * 86400000000) else none;
  change = change;
  applied_at = none;
  applied_hash = none;
  record_pending = false;
  record_ref = none;
  ratification_ref = none;
}

module _ {F P : Type 0} (change_hash : String → P → String) where
  unfoldable pub store_proposal :
      ℕ → String → Draft P → Option String → Community F P → Outcome (Proposal P) × Community F P
  unfolding new_proposal change_record
  store_proposal now id d ref c = elim (change_record change_hash d.change) [
    | none ↦ (refused bad_change, c)
    | some change ↦
        let p =
          recorded_proposal c.recording ref (new_proposal now id d change c.policy.urgent_days) in
        (done p, changed (record c { proposals = insert id p c.proposals }))
  ]

  -- `create_proposal`; `fresh` is the identifier that it makes up.
  unfoldable pub create_proposal :
      ℕ → String → Draft P → Option String → Community F P → Outcome (Proposal P) × Community F P
  unfolding store_proposal
  create_proposal now fresh d ref c =
      let id = clip 160 (strip (or_fresh d.id fresh)) in
      if not (is_set (clip 240 (strip d.title)))
      then (refused no_title, c)
      else elim (lookup id c.proposals) [
        | some p ↦ (refused id_taken, c)
        | none ↦ store_proposal now id d ref c
      ]

abbrev pub same_status : ProposalStatus → ProposalStatus → Bool
same_status open_ open_ = true
same_status closed closed = true
same_status adopted adopted = true
same_status rejected rejected = true
same_status superseded superseded = true
same_status _ _ = false

-- The status that a text names
unfoldable pub read_status : String → Option ProposalStatus
read_status s =
    let t = strip s in
    if lower_is t "open"
    then some open_
    else if lower_is t "closed"
    then some closed
    else if lower_is t "adopted"
    then some adopted
    else if lower_is t "rejected"
    then some rejected
    else if lower_is t "superseded"
    then some superseded
    else none

-- Whether an edit changes the text or the change, so that it makes a new version
unfoldable pub is_material : {P : Type 0} → ProposalEdit P → Bool
is_material e =
    is_given e.title || (is_given e.description || (is_given e.scope || is_given e.change))

abbrev pub asks_adopted : Option String → Bool
asks_adopted none = true
asks_adopted (some s) = lower_is (strip s) "adopted"

-- What an adopted proposal does not allow
unfoldable pub is_frozen : {P : Type 0} → Proposal P → ProposalEdit P → Bool
unfolding is_material
is_frozen p e = same_status p.status adopted && (is_material e || not (asks_adopted e.status))

abbrev pub closes : ProposalStatus → Bool
closes open_ = false
closes adopted = false
closes _ = true

abbrev not_over : ℕ → Option ℕ → Bool
not_over now none = false
not_over now (some t) = leb now t

-- Whether `active` has an invitation
unfoldable pub has_active : ℕ → String → ℕ → Dict Invitation → Bool
has_active now p n [] = false
has_active now p n ((k, i) ∷ d) =
    (str_eq i.proposal p && (i.version == n && (is_sent i.status && not_over now i.expires_at)))
    || has_active now p n d

-- Adoption, where a public record is attached only with the ratification on it
abbrev pub ratify : {P : Type 0} → Bool → Option String → Proposal P → Outcome (Proposal P)
ratify false r p = done (record p { status = adopted })
ratify true none p = refused ratification_failed
ratify true (some r) p = done (record p { status = adopted; ratification_ref = some r })
