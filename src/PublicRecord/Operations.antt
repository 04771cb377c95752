-- ===== src/PublicRecord/Operations.antt =====
-- `attest` keeps the chain of attestations.
use stageforge.Prelude.{
  ℕ, ◌+◌, ◌≡◌, refl, sym, ap, subst, ◌∙◌, String, str_eq, str_eq_refl, Bool, Bool-cases, true,
  false, ◌&&◌, Option, none, some, List, [], ◌∷◌, inl, inr, arith,
}
use stageforge.Prelude.Dict.{Dict, lookup}
use stageforge.PublicRecord.Chain.{
  zero_hash, Row, Line, row, broken, Sealing, last_hash, Scan, fault, scanned, check_row, scan,
}
use stageforge.PublicRecord.Attesting.{
  WitnessPolicy, Attestation, WitnessRow, Witnessing, or_known, knows_record, Search, replayed,
  fresh, unreadable_line, find_replay, previous_text, witness_row, attest_new, attest_record,
  attest_sealed, attest_by, attest_with,
}
use stageforge.PublicRecord.Auditing.{saw_hash, check_witness, scan_witnesses}
use stageforge.PublicRecord.Growth.{scan_next-scanned, check_row-hash}
use stageforge.PublicRecord.Continuity.{
  is_clean, end_of, last_hash-zero, scan_witnesses-last, scan_witnesses-snoc,
}

abbrev all_seen : List String → Scan → List String
all_seen s (fault n f) = s
all_seen s (scanned n p t) = t

seen_in : {n m : ℕ} {p q : String} {s t : List String} → scanned n p s ≡ scanned m q t → s ≡ t
seen_in {s = s} e = ap (all_seen s) e

first_seen :
    (h : String) (d : String) (seen : List String)
    → str_eq d h ≡ true
    → saw_hash h (d ∷ seen) ≡ true
unfolding saw_hash
first_seen h d seen e = rw e refl

known_later : (b : Bool) (o : Option Bool) → b ≡ false → or_known b o ≡ some true → o ≡ some true
known_later b none e k = ground arith
known_later b (some c) e k = ground arith

both_true : (b c : Bool) → (b && c) ≡ true → c ≡ true
both_true b c h = ground arith

-- What a scan has seen before, it has seen in the end, and every record that is known.
module _ {P : Type 0} (sealing : Sealing P) (signer h : String) where
  scan-seen :
      (previous : String) (n : ℕ) (seen : List String) (ls : List (Line (Row P))) (m : ℕ)
      (head : String) (all : List String)
      → scan sealing signer previous n seen ls ≡ scanned m head all
      → saw_hash h seen ≡ true
      → saw_hash h all ≡ true
  unfolding scan saw_hash
  scan-seen previous n seen [] m head all e t = subst (λ s. saw_hash h s ≡ true) (seen_in e) t
  scan-seen previous n seen (broken ∷ ls) m head all e t = ground arith
  scan-seen previous n seen (row r ∷ ls) m head all e t =
      let d = sealing.digest previous r.core in
      let ok =
        scan_next-scanned (check_row sealing signer previous n r) n
          (scan sealing signer d (n + 1) (d ∷ seen) ls) m head all e in
      scan-seen d (n + 1) (d ∷ seen) ls m head all ok.1 (ground (arith, t))

  pub scan-knows_record :
      (previous : String) (n : ℕ) (seen : List String) (ls : List (Line (Row P))) (m : ℕ)
      (head : String) (all : List String)
      → scan sealing signer previous n seen ls ≡ scanned m head all
      → knows_record h ls ≡ some true
      → saw_hash h all ≡ true
  unfolding scan knows_record
  scan-knows_record previous n seen [] m head all e k = ground arith
  scan-knows_record previous n seen (broken ∷ ls) m head all e k = ground arith
  scan-knows_record previous n seen (row r ∷ ls) m head all e k =
      let d = sealing.digest previous r.core in
      let ok =
        scan_next-scanned (check_row sealing signer previous n r) n
          (scan sealing signer d (n + 1) (d ∷ seen) ls) m head all e in
      elim (Bool-cases (str_eq r.hash h)) [
        | inl here ↦ scan-seen d (n + 1) (d ∷ seen) ls m head all ok.1 (
            first_seen h d seen (
              subst (λ s. str_eq s h ≡ true) (check_row-hash sealing signer previous n r ok.0)
                here))
        | inr other ↦
            scan-knows_record d (n + 1) (d ∷ seen) ls m head all ok.1
              (known_later (str_eq r.hash h) (knows_record h ls) other k)
      ]

unfoldable pub Stays : Witnessing → WitnessPolicy → List String → List (Line WitnessRow) → Type 0
Stays witnessing policy seen ws =
    is_clean (scan_witnesses witnessing policy seen zero_hash 0 [] ws) ≡ true

module _ (witnessing : Witnessing) (policy : WitnessPolicy) (seen : List String)
    (a : Attestation) where
  -- The row of an attestation passes the tests of `verify`.
  witness_row-check :
      (previous secret : String)
      → lookup a.witness policy.witnesses ≡ some secret
      → str_eq (witnessing.seal_of secret a.witness a.record_hash a.issued_at) a.seal ≡ true
      → saw_hash a.record_hash seen ≡ true
      → check_witness witnessing policy seen previous (witness_row witnessing previous a) ≡ none
  unfolding check_witness witness_row
  witness_row-check previous secret l s t =
      rw (str_eq_refl previous, str_eq_refl (witnessing.digest previous a), l, t, s) refl

  module _ (ws : List (Line WitnessRow)) (e : Stays witnessing policy seen ws) where
    new_Stays :
        (x : Search) (secret : String)
        → lookup a.witness policy.witnesses ≡ some secret
        → str_eq (witnessing.seal_of secret a.witness a.record_hash a.issued_at) a.seal ≡ true
        → saw_hash a.record_hash seen ≡ true
        → Stays witnessing policy seen (attest_new witnessing x a ws).1
    unfolding attest_new Stays
    new_Stays (replayed v) secret l s t = e
    new_Stays unreadable_line secret l s t = e
    new_Stays fresh secret l s t =
        let p = end_of witnessing zero_hash ws in
        let last =
          ap previous_text
            (last_hash-zero ws ∙ scan_witnesses-last witnessing policy seen zero_hash 0 [] ws e) in
        scan_witnesses-snoc witnessing policy seen zero_hash 0 [] ws
          (witness_row witnessing (previous_text (last_hash (λ r. r.hash) ws)) a) e
          (subst (λ q. check_witness witnessing policy seen p (witness_row witnessing q a) ≡ none)
            (sym last) (witness_row-check p secret l s t))

    record_Stays :
        (o : Option Bool) (secret : String)
        → lookup a.witness policy.witnesses ≡ some secret
        → str_eq (witnessing.seal_of secret a.witness a.record_hash a.issued_at) a.seal ≡ true
        → (o ≡ some true → saw_hash a.record_hash seen ≡ true)
        → Stays witnessing policy seen (attest_record witnessing o a ws).1
    unfolding attest_record
    record_Stays none secret l s t = e
    record_Stays (some false) secret l s t = e
    record_Stays (some true) secret l s t =
        new_Stays (find_replay a.witness a.record_hash ws) secret l s (t refl)

    sealed_Stays :
        (b : Bool) (o : Option Bool) (secret : String)
        → lookup a.witness policy.witnesses ≡ some secret
        → (b ≡ true
            → str_eq (witnessing.seal_of secret a.witness a.record_hash a.issued_at) a.seal ≡ true)
        → (o ≡ some true → saw_hash a.record_hash seen ≡ true)
        → Stays witnessing policy seen (attest_sealed witnessing b o a ws).1
    unfolding attest_sealed
    sealed_Stays false o secret l s t = e
    sealed_Stays true o secret l s t = record_Stays o secret l (s refl) t

    module _ {P : Type 0} (ls : List (Line (Row P)))
        (t : knows_record a.record_hash ls ≡ some true → saw_hash a.record_hash seen ≡ true) where
      by_Stays :
          (s : Option String)
          → lookup a.witness policy.witnesses ≡ s
          → Stays witnessing policy seen (attest_by witnessing s a ls ws).1
      unfolding attest_by
      by_Stays none l = e
      by_Stays (some secret) l =
          sealed_Stays _ (knows_record a.record_hash ls) secret l (λ b. both_true _ _ b) t

      pub with_Stays :
          (d : Dict String)
          → d ≡ policy.witnesses
          → Stays witnessing policy seen (attest_with witnessing d a ls ws).1
      unfolding attest_with
      with_Stays [] l = e
      with_Stays (w ∷ others) l =
          by_Stays (lookup a.witness (w ∷ others)) (ap (λ d. lookup a.witness d) (sym l))
