-- ===== src/PublicRecord/Auditing.antt =====
-- `verify` of PublicRecordStore: the records first, then the witnesses' attestations.
use stageforge.Prelude.{
  ℕ, ◌+◌, ◌==◌, leb, String, str_eq, Bool, true, false, not, ◌&&◌, ◌||◌, if◌then◌else◌, Option,
  none, some, List, [], ◌∷◌,
}
use stageforge.Prelude.Dict.{Dict, lookup}
use stageforge.PublicRecord.Chain.{
  zero_hash, Row, Line, row, broken, Sealing, ChainFault, Scan, fault, scanned, scan_chain,
}
use stageforge.PublicRecord.Attesting.{WitnessPolicy, Attestation, WitnessRow, Witnessing}

pub data WitnessFault : Type 0 where
  witness_chain identity_or_record seal_mismatch unreadable_row : WitnessFault

pub record AuditStatus : Type 0 where
  pub records : ℕ
  pub head : String
  pub configured : Bool
  pub quorum : ℕ
  pub witness_records : ℕ
  pub quorum_witnessed : ℕ
  pub all_witnessed : Bool

pub data Audit : Type 0 where
  good : AuditStatus → Audit
  bad_chain : ℕ → ChainFault → Audit
  bad_witnesses : ℕ → ℕ → WitnessFault → Audit
  policy_unavailable : Audit

unfoldable pub saw_hash : String → List String → Bool
saw_hash t [] = false
saw_hash t (s ∷ ss) = str_eq s t || saw_hash t ss

-- A witness that has attested a record
abbrev pub Attests : Type 0
Attests = List (String × String)

unfoldable pub has_attest : String → String → Attests → Bool
has_attest w h [] = false
has_attest w h ((v, g) ∷ marks) = (str_eq v w && str_eq g h) || has_attest w h marks

-- `witness_counts`, where a witness counts once for each record
unfoldable pub add_attest : String → String → Attests → Attests
unfolding has_attest
add_attest w h marks = if has_attest w h marks then marks else (w, h) ∷ marks

unfoldable pub count_witnesses : String → Attests → ℕ
count_witnesses h [] = 0
count_witnesses h ((v, g) ∷ marks) = (if str_eq g h then 1 else 0) + count_witnesses h marks

pub data WitnessScan : Type 0 where
  witness_fault : ℕ → WitnessFault → WitnessScan
  witnesses : ℕ → Attests → WitnessScan

unfoldable pub witness_next : Option WitnessFault → ℕ → WitnessScan → WitnessScan
witness_next (some f) n rest = witness_fault n f
witness_next none n rest = rest

module _ (witnessing : Witnessing) where
  abbrev pub sealed_by : Option String → Attestation → Bool
  sealed_by none a = false
  sealed_by (some secret) a =
      str_eq (witnessing.seal_of secret a.witness a.record_hash a.issued_at) a.seal

  abbrev pub has_secret : Option String → Bool
  has_secret none = false
  has_secret (some secret) = true

  -- The tests on one attestation
  unfoldable pub check_witness :
      WitnessPolicy → List String → String → WitnessRow → Option WitnessFault
  unfolding saw_hash
  check_witness policy seen previous w =
      let secret = lookup w.event.witness policy.witnesses in
      if not (str_eq w.previous previous)
        || not (str_eq w.hash (witnessing.digest previous w.event))
      then some witness_chain
      else if not (has_secret secret) || not (saw_hash w.event.record_hash seen)
      then some identity_or_record
      else if not (sealed_by secret w.event)
      then some seal_mismatch
      else none

  unfoldable pub scan_witnesses :
      WitnessPolicy → List String → String → ℕ → Attests → List (Line WitnessRow) → WitnessScan
  unfolding check_witness add_attest witness_next
  scan_witnesses policy seen previous n marks [] = witnesses n marks
  scan_witnesses policy seen previous n marks (broken ∷ ws) = witness_fault n unreadable_row
  scan_witnesses policy seen previous n marks (row w ∷ ws) =
      let rest =
        scan_witnesses policy seen (witnessing.digest previous w.event) (n + 1)
          (add_attest w.event.witness w.event.record_hash marks) ws in
      witness_next (check_witness policy seen previous w) n rest

-- The records that a quorum has attested; the digests are a set.
unfoldable pub count_witnessed : ℕ → Attests → List String → ℕ
unfolding saw_hash count_witnesses
count_witnessed q marks [] = 0
count_witnessed q marks (h ∷ hs) =
    (if not (saw_hash h hs) && leb q (count_witnesses h marks) then 1 else 0)
    + count_witnessed q marks hs

abbrev is_nonempty : Dict String → Bool
is_nonempty [] = false
is_nonempty (w ∷ ws) = true

unfoldable pub status_of : ℕ → String → List String → WitnessPolicy → ℕ → Attests → AuditStatus
unfolding count_witnessed
status_of n head seen policy m marks =
    let witnessed = if policy.quorum == 0 then 0 else count_witnessed policy.quorum marks seen in
    record {
      records = n;
      head = head;
      configured = is_nonempty policy.witnesses;
      quorum = policy.quorum;
      witness_records = m;
      quorum_witnessed = witnessed;
      all_witnessed = not (n == 0) && (not (policy.quorum == 0) && witnessed == n);
    }

unfoldable pub audit_witnesses : ℕ → String → List String → WitnessPolicy → WitnessScan → Audit
unfolding status_of
audit_witnesses n head seen policy (witness_fault m f) = bad_witnesses n m f
audit_witnesses n head seen policy (witnesses m marks) = good (status_of n head seen policy m marks)

module _ (witnessing : Witnessing) where
  unfoldable pub audit_after : Scan → Option WitnessPolicy → List (Line WitnessRow) → Audit
  unfolding audit_witnesses scan_witnesses
  audit_after (fault n f) policy ws = bad_chain n f
  audit_after (scanned n head seen) none ws = policy_unavailable
  audit_after (scanned n head seen) (some policy) ws =
      audit_witnesses n head seen policy (scan_witnesses witnessing policy seen zero_hash 0 [] ws)

  -- `verify`
  unfoldable pub verify :
      {P : Type 0}
      → Sealing P
      → String
      → Option WitnessPolicy
      → List (Line (Row P))
      → List (Line WitnessRow)
      → Audit
  unfolding audit_after scan_chain
  verify sealing signer policy ls ws = audit_after (scan_chain sealing signer ls) policy ws
