-- ===== src/PublicRecord/Audits.antt =====
-- An audit that is good stays good through every sequence of records and attestations.
use stageforge.Prelude.{
  ℕ, ◌+◌, ◌≡◌, refl, sym, ap, ◌∙◌, String, Bool, Bool-cases, true, false, Option, none, some, List,
  [], ◌∷◌, inl, inr, arith,
}
use stageforge.Prelude.Text.{is_set, clip, strip}
use stageforge.PublicRecord.Chain.{
  zero_hash, Row, Line, Sealing, Scan, fault, scanned, scan_chain, append,
}
use stageforge.PublicRecord.Attesting.{WitnessPolicy, Attestation, WitnessRow, Witnessing, attest}
use stageforge.PublicRecord.Auditing.{
  Audit, good, bad_chain, bad_witnesses, policy_unavailable, WitnessScan, witness_fault, witnesses,
  scan_witnesses, audit_witnesses, audit_after, verify,
}
use stageforge.PublicRecord.Growth.{append_keeps_chain}
use stageforge.PublicRecord.Continuity.{is_clean, scan_witnesses-more}
use stageforge.PublicRecord.Operations.{scan-knows_record, Stays, with_Stays}

abbrev pub is_good : Audit → Bool
is_good (good s) = true
is_good (bad_chain n f) = false
is_good (bad_witnesses n m f) = false
is_good policy_unavailable = false

pub data Entry (P : Type 0) : Type 0 where
  recorded : (now : ℕ) (id type : String) (payload : Option P) → Entry P
  attested : (a : Attestation) → Entry P

abbrev pub Files : Type 0 → Type 0
Files P = List (Line (Row P)) × List (Line WitnessRow)

module _ {P : Type 0} (sealing : Sealing P) (witnessing : Witnessing) (signer : String)
    (policy : WitnessPolicy) where
  unfoldable pub enter : Entry P → Files P → Files P
  enter (recorded now id type payload) f = ((append sealing signer now id type payload f.0).1, f.1)
  enter (attested a) f = (f.0, (attest witnessing (some policy) a f.0 f.1).1)

  unfoldable pub run : List (Entry P) → Files P → Files P
  unfolding enter
  run [] f = f
  run (s ∷ ss) f = run ss (enter s f)

  -- The two halves of a good audit
  clean_good :
      (n : ℕ) (head : String) (seen : List String) (x : WitnessScan)
      → is_good (audit_witnesses n head seen policy x) ≡ is_clean x
  unfolding audit_witnesses
  clean_good n head seen (witness_fault m f) = refl
  clean_good n head seen (witnesses m marks) = refl

  good_via :
      {G : Type 0} (x : Scan) (ws : List (Line WitnessRow))
      → is_good (audit_after witnessing x (some policy) ws) ≡ true
      → ((n : ℕ) (head : String) (seen : List String)
          → x ≡ scanned n head seen
          → Stays witnessing policy seen ws
          → G)
      → G
  unfolding audit_after Stays
  good_via (fault n f) ws g k = ground arith
  good_via (scanned n head seen) ws g k =
      k n head seen refl
        (sym (clean_good n head seen (scan_witnesses witnessing policy seen zero_hash 0 [] ws)) ∙ g)

  good_of :
      (ls : List (Line (Row P))) (ws : List (Line WitnessRow)) (n : ℕ) (head : String)
      (seen : List String)
      → scan_chain sealing signer ls ≡ scanned n head seen
      → Stays witnessing policy seen ws
      → is_good (verify witnessing sealing signer (some policy) ls ws) ≡ true
  unfolding verify audit_after Stays
  good_of ls ws n head seen e s =
      ap (λ x. is_good (audit_after witnessing x (some policy) ws)) e
      ∙ (clean_good n head seen (scan_witnesses witnessing policy seen zero_hash 0 [] ws) ∙ s)

  module _ (ls : List (Line (Row P))) (ws : List (Line WitnessRow))
      (g : is_good (verify witnessing sealing signer (some policy) ls ws) ≡ true) where
    append_good :
        (now : ℕ) (id type : String) (payload : Option P)
        → is_good (
            verify witnessing sealing signer
              (some policy)
              (append sealing signer now id type payload ls).1
              ws)
          ≡ true
    unfolding append Stays audit_after verify
    append_good now id type none = g
    append_good now id type (some payload) = elim (Bool-cases (is_set (clip 96 (strip type)))) [
      | inr blank ↦ rw blank g
      | inl named ↦ good_via (scan_chain sealing signer ls) ws g (λ n head seen e s.
          good_of (append sealing signer now id type (some payload) ls).1 ws (n + 1) _ _
            (append_keeps_chain sealing signer now n id type head seen payload ls e named)
            (more_Stays _ seen s))
    ]
      where
        more_Stays :
            (h : String) (seen : List String)
            → Stays witnessing policy seen ws
            → Stays witnessing policy (h ∷ seen) ws
        more_Stays h seen s = scan_witnesses-more witnessing policy h seen zero_hash 0 [] ws s

    attest_good :
        (a : Attestation)
        → is_good (
            verify witnessing sealing signer
              (some policy)
              ls
              (attest witnessing (some policy) a ls ws).1)
          ≡ true
    unfolding attest audit_after verify
    attest_good a = good_via (scan_chain sealing signer ls) ws g (λ n head seen e s.
        good_of ls (attest witnessing (some policy) a ls ws).1 n head seen e (
          with_Stays witnessing policy seen a ws s ls
            (scan-knows_record sealing signer a.record_hash zero_hash 0 [] ls n head seen e)
            policy.witnesses refl))

  -- What `verify` accepts, it accepts after any number of calls of `append` and `attest`, of whatever arguments,
  -- while the witnesses' policy stays the same.
  pub run-audited :
      (ss : List (Entry P)) (f : Files P)
      → is_good (verify witnessing sealing signer (some policy) f.0 f.1) ≡ true
      → is_good (verify witnessing sealing signer (some policy) (run ss f).0 (run ss f).1) ≡ true
  unfolding run enter
  run-audited [] f g = g
  run-audited (recorded now id type payload ∷ ss) f g =
      run-audited ss _ (append_good f.0 f.1 g now id type payload)
  run-audited (attested a ∷ ss) f g = run-audited ss _ (attest_good f.0 f.1 g a)
