-- ===== src/PublicRecord/Continuity.antt =====
-- The chain of attestations that `verify` accepts, with one more attestation or one more record
use stageforge.Prelude.{
  ℕ, ◌+◌, ◌≡◌, refl, ◌∙◌, String, str_eq_iff, Bool, true, false, Option, none, some, List, [], ◌∷◌,
  ◌++◌, arith,
}
use stageforge.PublicRecord.Chain.{zero_hash, Line, row, broken, last_hash}
use stageforge.PublicRecord.Attesting.{WitnessPolicy, WitnessRow, Witnessing}
use stageforge.PublicRecord.Auditing.{
  WitnessFault, saw_hash, Attests, add_attest, WitnessScan, witness_fault, witnesses, witness_next,
  check_witness, scan_witnesses,
}

abbrev pub is_clean : WitnessScan → Bool
is_clean (witness_fault n f) = false
is_clean (witnesses n marks) = true

next_clean :
    (o : Option WitnessFault) (n : ℕ) (rest : WitnessScan)
    → is_clean (witness_next o n rest) ≡ true
    → (o ≡ none) × (is_clean rest ≡ true)
unfolding witness_next
next_clean none n rest h = (refl, h)
next_clean (some f) n rest h = ground arith

-- The digest that the next attestation has to follow
unfoldable pub end_of : Witnessing → String → List (Line WitnessRow) → String
end_of witnessing previous [] = previous
end_of witnessing previous (broken ∷ ws) = previous
end_of witnessing previous (row w ∷ ws) = end_of witnessing (witnessing.digest previous w.event) ws

abbrev pub last_row : String → List (Line WitnessRow) → Option String
last_row previous [] = some previous
last_row previous (l ∷ ws) = last_hash (λ r. r.hash) (l ∷ ws)

pub last_hash-zero :
    (ws : List (Line WitnessRow)) → last_hash (λ r. r.hash) ws ≡ last_row zero_hash ws
unfolding last_hash
last_hash-zero [] = refl
last_hash-zero (l ∷ ws) = refl

last_hash-cons :
    (r : WitnessRow) (ws : List (Line WitnessRow))
    → last_hash (λ r. r.hash) (row r ∷ ws) ≡ last_row r.hash ws
unfolding last_hash
last_hash-cons r [] = refl
last_hash-cons r (l ∷ ws) = refl

module _ (witnessing : Witnessing) (policy : WitnessPolicy) where
  -- More records do no harm to the attestations.
  check_witness-more :
      (h : String) (seen : List String) (previous : String) (w : WitnessRow)
      → check_witness witnessing policy seen previous w ≡ none
      → check_witness witnessing policy (h ∷ seen) previous w ≡ none
  unfolding check_witness saw_hash
  check_witness-more h seen previous w e = ground arith

  pub scan_witnesses-more :
      (h : String) (seen : List String) (previous : String) (n : ℕ) (marks : Attests)
      (ws : List (Line WitnessRow))
      → is_clean (scan_witnesses witnessing policy seen previous n marks ws) ≡ true
      → is_clean (scan_witnesses witnessing policy (h ∷ seen) previous n marks ws) ≡ true
  unfolding scan_witnesses
  scan_witnesses-more h seen previous n marks [] e = refl
  scan_witnesses-more h seen previous n marks (broken ∷ ws) e = ground arith
  scan_witnesses-more h seen previous n marks (row w ∷ ws) e =
      let d = witnessing.digest previous w.event in
      let more = add_attest w.event.witness w.event.record_hash marks in
      let ok =
        next_clean (check_witness witnessing policy seen previous w) n
          (scan_witnesses witnessing policy seen d (n + 1) more ws) e in
      rw (check_witness-more h seen previous w ok.0, witness_next)
        (scan_witnesses-more h seen d (n + 1) more ws ok.1)

  module _ (seen : List String) where
    check_witness-hash :
        (previous : String) (w : WitnessRow)
        → check_witness witnessing policy seen previous w ≡ none
        → w.hash ≡ witnessing.digest previous w.event
    unfolding check_witness
    check_witness-hash previous w e =
        ground (arith, str_eq_iff w.hash (witnessing.digest previous w.event))

    pub scan_witnesses-last :
        (previous : String) (n : ℕ) (marks : Attests) (ws : List (Line WitnessRow))
        → is_clean (scan_witnesses witnessing policy seen previous n marks ws) ≡ true
        → last_row previous ws ≡ some (end_of witnessing previous ws)
    unfolding scan_witnesses end_of
    scan_witnesses-last previous n marks [] e = refl
    scan_witnesses-last previous n marks (broken ∷ ws) e = ground arith
    scan_witnesses-last previous n marks (row w ∷ ws) e =
        let d = witnessing.digest previous w.event in
        let more = add_attest w.event.witness w.event.record_hash marks in
        let ok =
          next_clean (check_witness witnessing policy seen previous w) n
            (scan_witnesses witnessing policy seen d (n + 1) more ws) e in
        last_hash-cons w ws
        ∙ rw (check_witness-hash previous w ok.0) (scan_witnesses-last d (n + 1) more ws ok.1)

    pub scan_witnesses-snoc :
        (previous : String) (n : ℕ) (marks : Attests) (ws : List (Line WitnessRow)) (w : WitnessRow)
        → is_clean (scan_witnesses witnessing policy seen previous n marks ws) ≡ true
        → check_witness witnessing policy seen (end_of witnessing previous ws) w ≡ none
        → is_clean (scan_witnesses witnessing policy seen previous n marks (ws ++ (row w ∷ [])))
          ≡ true
    unfolding scan_witnesses end_of
    scan_witnesses-snoc previous n marks [] w e k = rw (k, witness_next) refl
    scan_witnesses-snoc previous n marks (broken ∷ ws) w e k = ground arith
    scan_witnesses-snoc previous n marks (row r ∷ ws) w e k =
        let d = witnessing.digest previous r.event in
        let more = add_attest r.event.witness r.event.record_hash marks in
        let ok =
          next_clean (check_witness witnessing policy seen previous r) n
            (scan_witnesses witnessing policy seen d (n + 1) more ws) e in
        rw (ok.0, witness_next) (scan_witnesses-snoc d (n + 1) more ws w ok.1 k)
