-- ===== src/PublicRecord/Attesting.antt =====
-- `attest` of PublicRecordStore and the witnesses' policy. A witness's seal is an operation on its secret, its
-- identity, a record's digest and a time.
use stageforge.Prelude.{
  ℕ, String, str_eq, Bool, true, false, ◌&&◌, ◌||◌, if◌then◌else◌, Option, none, some, List, [],
  ◌∷◌, ◌++◌,
}
use stageforge.Prelude.Text.{is_set}
use stageforge.Prelude.Int.{ℤ}
use stageforge.Prelude.Dict.{Dict, lookup}
use stageforge.PublicRecord.Chain.{Row, Line, row, broken, last_hash}

-- `_witness_policy`: the secrets of the witnesses
pub record WitnessPolicy : Type 0 where
  pub quorum : ℕ
  pub witnesses : Dict String

pub record Attestation : Type 0 where
  pub witness : String
  pub record_hash : String
  pub issued_at : ℤ
  pub seal : String

pub record WitnessRow : Type 0 where
  pub event : Attestation
  pub previous : String
  pub hash : String

-- The seal of an attestation, and the digest of one after another
pub record Witnessing : Type 0 where
  pub seal_of : String → String → String → ℤ → String
  pub digest : String → Attestation → String

pub data AttestError : Type 0 where
  no_policy no_witnesses unknown_witness bad_seal unknown_record unreadable_file : AttestError

pub data Attested : Type 0 where
  accepted : Attestation → (deduplicated : Bool) → Attested
  refused : AttestError → Attested

abbrev pub or_known : Bool → Option Bool → Option Bool
or_known b none = none
or_known b (some c) = some (b || c)

-- Whether `_record_hashes` has a digest; `none` is the error of a line that is broken.
unfoldable pub knows_record : {P : Type 0} → String → List (Line (Row P)) → Option Bool
knows_record h [] = some false
knows_record h (broken ∷ ls) = none
knows_record h (row r ∷ ls) = or_known (str_eq r.hash h) (knows_record h ls)

pub data Search : Type 0 where
  replayed : Attestation → Search
  fresh unreadable_line : Search

-- The search for a replay, which ends at the first
unfoldable pub find_replay : String → String → List (Line WitnessRow) → Search
find_replay w h [] = fresh
find_replay w h (broken ∷ ls) = unreadable_line
find_replay w h (row r ∷ ls) =
    let rest = find_replay w h ls in
    if str_eq r.event.witness w && str_eq r.event.record_hash h then replayed r.event else rest

-- `previous` of a new row: a last line without a digest makes it `INVALID`.
abbrev pub previous_text : Option String → String
previous_text none = "INVALID"
previous_text (some h) = h

module _ (witnessing : Witnessing) where
  unfoldable pub witness_row : String → Attestation → WitnessRow
  witness_row previous a = record {
    event = a;
    previous = previous;
    hash = witnessing.digest previous a;
  }

  -- Past the tests on the attestation and on the record
  unfoldable pub attest_new :
      Search → Attestation → List (Line WitnessRow) → Attested × List (Line WitnessRow)
  unfolding witness_row last_hash
  attest_new (replayed event) a ws = (accepted event true, ws)
  attest_new unreadable_line a ws = (refused unreadable_file, ws)
  attest_new fresh a ws = (
    accepted a false,
    ws ++ (row (witness_row (previous_text (last_hash (λ r. r.hash) ws)) a) ∷ []),
  )

  unfoldable pub attest_record :
      Option Bool → Attestation → List (Line WitnessRow) → Attested × List (Line WitnessRow)
  unfolding attest_new find_replay
  attest_record none a ws = (refused unreadable_file, ws)
  attest_record (some false) a ws = (refused unknown_record, ws)
  attest_record (some true) a ws = attest_new (find_replay a.witness a.record_hash ws) a ws

  -- Past the test on the seal
  unfoldable pub attest_sealed :
      Bool → Option Bool → Attestation → List (Line WitnessRow) → Attested × List (Line WitnessRow)
  unfolding attest_record
  attest_sealed false known a ws = (refused bad_seal, ws)
  attest_sealed true known a ws = attest_record known a ws

  unfoldable pub attest_by :
      {P : Type 0}
      → Option String
      → Attestation
      → List (Line (Row P))
      → List (Line WitnessRow)
      → Attested × List (Line WitnessRow)
  unfolding attest_sealed knows_record
  attest_by none a ls ws = (refused unknown_witness, ws)
  attest_by (some secret) a ls ws =
      attest_sealed
        (is_set a.seal
          && str_eq (witnessing.seal_of secret a.witness a.record_hash a.issued_at) a.seal)
        (knows_record a.record_hash ls) a ws

  unfoldable pub attest_with :
      {P : Type 0}
      → Dict String
      → Attestation
      → List (Line (Row P))
      → List (Line WitnessRow)
      → Attested × List (Line WitnessRow)
  unfolding attest_by
  attest_with [] a ls ws = (refused no_witnesses, ws)
  attest_with (w ∷ others) a ls ws = attest_by (lookup a.witness (w ∷ others)) a ls ws

  -- `attest`, of an attestation with all its fields
  unfoldable pub attest :
      {P : Type 0}
      → Option WitnessPolicy
      → Attestation
      → List (Line (Row P))
      → List (Line WitnessRow)
      → Attested × List (Line WitnessRow)
  unfolding attest_with
  attest none a ls ws = (refused no_policy, ws)
  attest (some policy) a ls ws = attest_with policy.witnesses a ls ws
