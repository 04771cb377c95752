-- ===== src/PublicRecord/Tests.antt =====
-- Two records and an attestation, and the theorems about them.
use stageforge.Prelude.{◌≡◌, ◌↔◌, refl, String, str_eq, true, some, List, [], ◌∷◌}
use stageforge.Prelude.Int.{pos}
use stageforge.Prelude.Text.{clip, strip, is_set}
use stageforge.Prelude.Dict.{lookup}
use stageforge.PublicRecord.Chain.{
  zero_hash, Row, Line, Sealing, new_core, append, append_after, scanned, scan_chain, last_hash,
}
use stageforge.PublicRecord.Attesting.{
  WitnessPolicy, Attestation, Witnessing, accepted, attest, attest_with, attest_by, attest_sealed,
  attest_record, knows_record, find_replay, attest_new,
}
use stageforge.PublicRecord.Growth.{append_keeps_chain}
use stageforge.PublicRecord.Auditing.{verify}
use stageforge.PublicRecord.Soundness.{is_scanned, IsChain, scan_chain-IsChain}
use stageforge.PublicRecord.Audits.{Entry, run, is_good, run-audited}
use stageforge.PublicRecord.Replays.{attest_again}

-- A digest is the identifier of the record, and a signature the digest.
abbrev by_id : Sealing String
by_id = record { digest = λ previous c. c.id; sign = λ h signer. h }

abbrev by_witness : Witnessing
by_witness = record { seal_of = λ secret w h t. secret; digest = λ previous a. a.record_hash }

abbrev one_record : List (Line (Row String))
one_record = (append by_id "node" 5 "record-1" "show" (some "open") []).1

two_records-scanned :
    scan_chain by_id "node" (append by_id "node" 6 "record-2" "show" (some "shut") one_record).1
    ≡ scanned 2 "record-2" ("record-2" ∷ "record-1" ∷ [])
unfolding append append_after last_hash scan_chain strip clip is_set str_eq new_core
two_records-scanned =
    append_keeps_chain by_id "node" 6 1 "record-2" "show" "record-1" ("record-1" ∷ []) "shut"
      one_record refl refl

abbrev two_witnesses : WitnessPolicy
two_witnesses = record { quorum = 1; witnesses = ("w1", "s1") ∷ ("w2", "s2") ∷ [] }

abbrev seen_by_w2 : Attestation
seen_by_w2 = record { witness = "w2"; record_hash = "record-1"; issued_at = pos 9; seal = "s2" }

attest_again_example :
    attest by_witness
      (some two_witnesses)
      seen_by_w2
      one_record
      (attest by_witness (some two_witnesses) seen_by_w2 one_record []).1
    ≡ (
      accepted seen_by_w2 true,
      (attest by_witness (some two_witnesses) seen_by_w2 one_record []).1,
    )
unfolding append append_after last_hash strip clip is_set str_eq attest attest_with attest_by
    attest_sealed attest_record knows_record find_replay attest_new lookup
attest_again_example = attest_again by_witness seen_by_w2 one_record [] (some two_witnesses) refl

-- A second record, and the attestation twice
abbrev three_steps : List (Entry String)
three_steps =
    Entry.recorded 6 "record-2" "show" (some "shut")
    ∷ Entry.attested seen_by_w2
    ∷ Entry.attested seen_by_w2
    ∷ []

run-audited_example :
    is_good (
      verify by_witness by_id "node"
        (some two_witnesses)
        (run by_id by_witness "node" two_witnesses three_steps (one_record, [])).0
        (run by_id by_witness "node" two_witnesses three_steps (one_record, [])).1)
    ≡ true
unfolding append append_after last_hash strip clip is_set str_eq verify scan_chain
run-audited_example =
    run-audited by_id by_witness "node" two_witnesses three_steps (one_record, []) refl

scan_chain-IsChain_example :
    (is_scanned (scan_chain by_id "node" one_record) ≡ true)
    ↔ IsChain by_id "node" zero_hash 0 one_record
scan_chain-IsChain_example = scan_chain-IsChain by_id "node" one_record
