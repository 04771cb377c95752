-- ===== src/PublicRecord/Growth.antt =====
-- What `append` and `attest` keep
use stageforge.Prelude.{
  ℕ, ◌+◌, ◌≡◌, refl, ap, ◌∙◌, ◌==◌, String, str_eq_refl, str_eq_iff, true, Option, none, some, List,
  [], ◌∷◌, ◌++◌, length, arith,
}
use stageforge.Prelude.Text.{clip, strip, is_set}
use stageforge.PublicRecord.Chain.{
  zero_hash, Row, Line, row, broken, Sealing, last_hash, new_core, sealed_row, append_after, append,
  ChainFault, Scan, fault, scanned, check_row, scan_next, scan, scan_chain,
}

-- The last digest of some lines, after one
abbrev last_after : {P : Type 0} → String → List (Line (Row P)) → Option String
last_after previous [] = some previous
last_after previous (l ∷ ls) = last_hash (λ r. r.hash) (l ∷ ls)

last_hash-zero :
    {P : Type 0} (ls : List (Line (Row P))) → last_hash (λ r. r.hash) ls ≡ last_after zero_hash ls
unfolding last_hash
last_hash-zero [] = refl
last_hash-zero (l ∷ ls) = refl

last_hash-cons :
    {P : Type 0} (r : Row P) (ls : List (Line (Row P)))
    → last_hash (λ r. r.hash) (row r ∷ ls) ≡ last_after r.hash ls
unfolding last_hash
last_hash-cons r [] = refl
last_hash-cons r (l ∷ ls) = refl

pub scan_next-scanned :
    (o : Option ChainFault) (n : ℕ) (rest : Scan) (m : ℕ) (head : String) (all : List String)
    → scan_next o n rest ≡ scanned m head all
    → (o ≡ none) × (rest ≡ scanned m head all)
unfolding scan_next
scan_next-scanned none n rest m head all h = (refl, h)
scan_next-scanned (some f) n rest m head all h = ground arith

same_number : (n : ℕ) → (n == n) ≡ true
same_number n = ground arith

module _ {P : Type 0} (sealing : Sealing P) (signer : String) where
  pub check_row-hash :
      (previous : String) (n : ℕ) (r : Row P)
      → check_row sealing signer previous n r ≡ none
      → r.hash ≡ sealing.digest previous r.core
  unfolding check_row
  check_row-hash previous n r h = ground (arith, str_eq_iff r.hash (sealing.digest previous r.core))

  -- What a scan without a fault says of its last record
  scan-last :
      (previous : String) (n : ℕ) (seen : List String) (ls : List (Line (Row P))) (m : ℕ)
      (head : String) (all : List String)
      → scan sealing signer previous n seen ls ≡ scanned m head all
      → (m ≡ n + length ls) × (last_after previous ls ≡ some head)
  unfolding scan
  scan-last previous n seen [] m head all h = ground arith
  scan-last previous n seen (broken ∷ ls) m head all h = ground arith
  scan-last previous n seen (row r ∷ ls) m head all h =
      let d = sealing.digest previous r.core in
      let ok =
        scan_next-scanned (check_row sealing signer previous n r) n
          (scan sealing signer d (n + 1) (d ∷ seen) ls) m head all h in
      let rest = scan-last d (n + 1) (d ∷ seen) ls m head all ok.1 in
      (omega (arith, rest.0), last_hash-cons r ls ∙ rw (check_row-hash previous n r ok.0) rest.1)

  sealed_row-check :
      (previous id type : String) (now n : ℕ) (payload : P)
      → check_row sealing signer previous n
          (sealed_row sealing signer (new_core (n + 1) now id type payload previous))
        ≡ none
  unfolding check_row sealed_row new_core
  sealed_row-check previous id type now n payload =
      let c = new_core (n + 1) now id type payload previous in
      rw
        (
          str_eq_refl previous,
          same_number (n + 1),
          str_eq_refl (sealing.digest previous c),
          str_eq_refl signer,
          str_eq_refl "hmac-sha256",
          str_eq_refl (sealing.sign (sealing.digest previous c) signer),
        )
        refl

  module _ (r : Row P) where
    continued : Scan → Scan
    continued (fault n f) = fault n f
    continued (scanned n previous seen) = scan sealing signer previous n seen (row r ∷ [])

  -- A scan goes on after the lines that it has read.
  scan-snoc :
      (previous : String) (n : ℕ) (seen : List String) (ls : List (Line (Row P))) (r : Row P)
      (m : ℕ) (head : String) (all : List String)
      → scan sealing signer previous n seen ls ≡ scanned m head all
      → scan sealing signer previous n seen (ls ++ (row r ∷ []))
        ≡ scan sealing signer head m all (row r ∷ [])
  unfolding scan continued
  scan-snoc previous n seen [] r m head all h = ap (continued r) h
  scan-snoc previous n seen (broken ∷ ls) r m head all h = ground arith
  scan-snoc previous n seen (row q ∷ ls) r m head all h =
      let d = sealing.digest previous q.core in
      let ok =
        scan_next-scanned (check_row sealing signer previous n q) n
          (scan sealing signer d (n + 1) (d ∷ seen) ls) m head all h in
      rw (ok.0, scan_next) (scan-snoc d (n + 1) (d ∷ seen) ls r m head all ok.1)

  append-written :
      (now : ℕ) (id type head : String) (payload : P) (ls : List (Line (Row P)))
      → last_after zero_hash ls ≡ some head
      → is_set (clip 96 (strip type)) ≡ true
      → (append sealing signer now id type (some payload) ls).1 ≡ (
          ls
          ++ (row (
                sealed_row sealing signer
                  (new_core (length ls + 1) now id (clip 96 (strip type)) payload head))
              ∷ []))
  unfolding append append_after
  append-written now id type head payload ls l t = rw (t, last_hash-zero ls ∙ l, append_after) refl

  scan-sealed_row :
      (now n : ℕ) (id type head : String) (seen : List String) (payload : P)
      → scan sealing signer head n seen
          (row (sealed_row sealing signer (new_core (n + 1) now id type payload head)) ∷ [])
        ≡ scanned
            (n + 1)
            (sealing.digest head (new_core (n + 1) now id type payload head))
            (sealing.digest head (new_core (n + 1) now id type payload head) ∷ seen)
  unfolding scan sealed_row
  scan-sealed_row now n id type head seen payload =
      rw (sealed_row-check head id type now n payload, scan_next) refl

  -- `append` to a chain that `verify` accepts, of a type that is not blank, gives one that it accepts, with the
  -- new record last: its sequence is the next one, and it has the digest before.
  pub append_keeps_chain :
      (now n : ℕ) (id type head : String) (seen : List String) (payload : P)
      (ls : List (Line (Row P)))
      → scan_chain sealing signer ls ≡ scanned n head seen
      → is_set (clip 96 (strip type)) ≡ true
      → scan_chain sealing signer (append sealing signer now id type (some payload) ls).1
        ≡ scanned
            (n + 1)
            (sealing.digest head (new_core (n + 1) now id (clip 96 (strip type)) payload head))
            (sealing.digest head (new_core (n + 1) now id (clip 96 (strip type)) payload head)
              ∷ seen)
  unfolding scan_chain
  append_keeps_chain now n id type head seen payload ls h t =
      let t2 = clip 96 (strip type) in
      let last = scan-last zero_hash 0 [] ls n head seen h in
      let r : ℕ → Row P = λ k. sealed_row sealing signer (new_core k now id t2 payload head) in
      ap (scan sealing signer zero_hash 0 []) (append-written now id type head payload ls last.1 t)
      ∙ (ap (λ k. scan sealing signer zero_hash 0 [] (ls ++ (row (r k) ∷ [])))
            (omega (arith, last.0))
          ∙ (scan-snoc zero_hash 0 [] ls (r (n + 1)) n head seen h
              ∙ scan-sealed_row now n id t2 head seen payload))
