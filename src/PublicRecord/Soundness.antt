-- ===== src/PublicRecord/Soundness.antt =====
-- What `verify` accepts of the records is a chain as it should be.
use stageforge.Prelude.{
  ℕ, ◌+◌, ◌≡◌, ◌↔◌, refl, sym, ◌==◌, String, str_eq, str_eq_iff, Bool, true, false, Option, none,
  some, List, [], ◌∷◌, arith,
}
use stageforge.PublicRecord.Chain.{
  zero_hash, Row, Line, row, broken, Sealing, ChainFault, Scan, fault, scanned, check_row,
  scan_next, scan, scan_chain,
}

abbrev pub is_scanned : Scan → Bool
is_scanned (fault n f) = false
is_scanned (scanned n head seen) = true

pub record IsNext {P : Type 0} (sealing : Sealing P) (signer previous : String) (n : ℕ) (r : Row P)
    : Type 0 where
  pub links : r.core.previous ≡ previous
  pub counts : r.core.sequence ≡ n + 1
  pub seals : r.hash ≡ sealing.digest previous r.core
  pub signs : r.signer ≡ signer
  pub names : r.algorithm ≡ "hmac-sha256"
  pub proves : r.signature ≡ sealing.sign (sealing.digest previous r.core) r.signer

next_none :
    (o : Option ChainFault) (n : ℕ) (rest : Scan)
    → is_scanned (scan_next o n rest) ≡ true
    → o ≡ none
unfolding scan_next
next_none none n rest h = refl
next_none (some f) n rest h = ground arith

next_rest :
    (o : Option ChainFault) (n : ℕ) (rest : Scan)
    → is_scanned (scan_next o n rest) ≡ true
    → is_scanned rest ≡ true
unfolding scan_next
next_rest none n rest h = h
next_rest (some f) n rest h = ground arith

module _ {P : Type 0} (sealing : Sealing P) (signer : String) where
  -- A chain as it should be: each record has the digest of the one before and the next sequence, and its own
  -- digest and signature are right.
  unfoldable pub IsChain : String → ℕ → List (Line (Row P)) → Type 0
  IsChain previous n [] = Unit {0}
  IsChain previous n (broken ∷ ls) = ⊥
  IsChain previous n (row r ∷ ls) =
      IsNext sealing signer previous n r × IsChain (sealing.digest previous r.core) (n + 1) ls

  passed_IsNext :
      (previous : String) (n : ℕ) (r : Row P)
      → check_row sealing signer previous n r ≡ none
      → IsNext sealing signer previous n r
  unfolding check_row
  passed_IsNext previous n r h =
      let d = sealing.digest previous r.core in
      record {
        links = ground (arith, str_eq_iff r.core.previous previous);
        counts = ground arith;
        seals = ground (arith, str_eq_iff r.hash d);
        signs = ground (arith, str_eq_iff r.signer signer);
        names = ground (arith, str_eq_iff r.algorithm "hmac-sha256");
        proves = sym (ground (arith, str_eq_iff (sealing.sign d r.signer) r.signature));
      }

  next_passes :
      (previous : String) (n : ℕ) (r : Row P)
      → IsNext sealing signer previous n r
      → check_row sealing signer previous n r ≡ none
  unfolding check_row
  next_passes previous n r i =
      let d = sealing.digest previous r.core in
      let a : str_eq r.core.previous previous ≡ true =
        (str_eq_iff r.core.previous previous).1 i.links in
      let b : (r.core.sequence == n + 1) ≡ true = ground (arith, i.counts) in
      let c : str_eq r.hash d ≡ true = (str_eq_iff r.hash d).1 i.seals in
      let e : str_eq r.signer signer ≡ true = (str_eq_iff r.signer signer).1 i.signs in
      let f : str_eq r.algorithm "hmac-sha256" ≡ true =
        (str_eq_iff r.algorithm "hmac-sha256").1 i.names in
      let g : str_eq (sealing.sign d r.signer) r.signature ≡ true =
        (str_eq_iff (sealing.sign d r.signer) r.signature).1 (sym i.proves) in
      ground (arith, a, b, c, e, f, g)

  scan-IsChain :
      (previous : String) (n : ℕ) (seen : List String) (ls : List (Line (Row P)))
      → (is_scanned (scan sealing signer previous n seen ls) ≡ true) ↔ IsChain previous n ls
  unfolding scan IsChain
  scan-IsChain previous n seen [] = (λ h. tt, λ h. refl)
  scan-IsChain previous n seen (broken ∷ ls) = (λ h. ground arith, λ h. elim h [ ])
  scan-IsChain previous n seen (row r ∷ ls) =
      let d = sealing.digest previous r.core in
      let rest = scan-IsChain d (n + 1) (d ∷ seen) ls in
      (
        λ h. (
          passed_IsNext previous n r (
              next_none (check_row sealing signer previous n r) n
                (scan sealing signer d (n + 1) (d ∷ seen) ls) h),
          rest.0 (
              next_rest (check_row sealing signer previous n r) n
                (scan sealing signer d (n + 1) (d ∷ seen) ls) h),
        ),
        λ i. rw (next_passes previous n r i.0, scan_next) (rest.1 i.1),
      )

  -- `verify` accepts the records exactly if they are a chain as it should be, from the digest of zeros and
  -- the sequence 1 on.
  pub scan_chain-IsChain :
      (ls : List (Line (Row P)))
      → (is_scanned (scan_chain sealing signer ls) ≡ true) ↔ IsChain zero_hash 0 ls
  unfolding scan_chain
  scan_chain-IsChain ls = scan-IsChain zero_hash 0 [] ls
