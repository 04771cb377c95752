-- ===== src/PublicRecord/Chain.antt =====
-- The records of PublicRecordStore. A file is its lines that are not blank; a line that is no JSON object with
-- the fields that are read is `broken`. SHA-256 over the canonical JSON, and the signature of a digest,
-- are operations.
use stageforge.Prelude.{
  ℕ, ◌+◌, ◌==◌, String, str_eq, not, ◌||◌, if◌then◌else◌, Option, none, some, List, [], ◌∷◌, ◌++◌,
  length,
}
use stageforge.Prelude.Text.{clip, strip, is_set}

-- `_ZERO`
abbrev pub zero_hash : String
zero_hash = "0000000000000000000000000000000000000000000000000000000000000000"

-- `core` of `append`
pub record Core (P : Type 0) : Type 0 where
  pub sequence : ℕ
  pub id : String
  pub type : String
  pub timestamp : ℕ
  pub payload : P
  pub previous : String

pub record Row (P : Type 0) : Type 0 where
  pub core : Core P
  pub hash : String
  pub signer : String
  pub algorithm : String
  pub signature : String

pub data Line {ℓ} (A : Type ℓ) : Type ℓ where
  row : A → Line A
  broken : Line A

-- The digest of a record after another, and the signature of a digest by a signer
pub record Sealing (P : Type 0) : Type 0 where
  pub digest : String → Core P → String
  pub sign : String → String → String

pub data AppendError : Type 0 where
  bad_record chain_invalid : AppendError

pub data Appended (P : Type 0) : Type 0 where
  appended : Row P → Appended P
  failed : AppendError → Appended P

-- `_last_hash`; `none` is `INVALID`.
unfoldable pub last_hash {ℓ} : {A : Type ℓ} → (A → String) → List (Line A) → Option String
last_hash hash [] = some zero_hash
last_hash hash (row r ∷ []) = some (hash r)
last_hash hash (broken ∷ []) = none
last_hash hash (l ∷ m ∷ ls) = last_hash hash (m ∷ ls)

-- The record without its digest and signature
unfoldable pub new_core : {P : Type 0} → ℕ → ℕ → String → String → P → String → Core P
new_core sequence now id type payload previous = record {
  sequence = sequence;
  id = id;
  type = type;
  timestamp = now;
  payload = payload;
  previous = previous;
}

module _ {P : Type 0} (sealing : Sealing P) where
  -- The record that `append` writes
  unfoldable pub sealed_row : String → Core P → Row P
  sealed_row signer c =
      let h = sealing.digest c.previous c in
      record {
        core = c;
        hash = h;
        signer = signer;
        algorithm = "hmac-sha256";
        signature = sealing.sign h signer;
      }

  unfoldable pub append_after :
      Option String
      → String
      → ℕ
      → String
      → String
      → P
      → List (Line (Row P))
      → Appended P × List (Line (Row P))
  unfolding sealed_row new_core
  append_after none signer now id type payload ls = (failed chain_invalid, ls)
  append_after (some previous) signer now id type payload ls =
      let r = sealed_row signer (new_core (length ls + 1) now id type payload previous) in
      (appended r, ls ++ (row r ∷ []))

  -- `append`; `id` is the identifier that it makes up, `payload` is `none` where it is no object.
  unfoldable pub append :
      String
      → ℕ
      → String
      → String
      → Option P
      → List (Line (Row P))
      → Appended P × List (Line (Row P))
  unfolding append_after last_hash
  append signer now id type none ls = (failed bad_record, ls)
  append signer now id type (some payload) ls =
      if not (is_set (clip 96 (strip type)))
      then (failed bad_record, ls)
      else append_after (last_hash (λ r. r.hash) ls) signer now id (clip 96 (strip type)) payload ls

pub data ChainFault : Type 0 where
  chain_mismatch hash_mismatch signature_mismatch unreadable : ChainFault

-- What the first half of `verify` finds: a fault after some records, or all records, the last digest and
-- all digests, the latest first
pub data Scan : Type 0 where
  fault : ℕ → ChainFault → Scan
  scanned : ℕ → String → List String → Scan

unfoldable pub scan_next : Option ChainFault → ℕ → Scan → Scan
scan_next (some f) n rest = fault n f
scan_next none n rest = rest

module _ {P : Type 0} (sealing : Sealing P) where
  -- The tests on one record, after `n` records of which the last has the digest `previous`
  unfoldable pub check_row : String → String → ℕ → Row P → Option ChainFault
  check_row signer previous n r =
      if not (str_eq r.core.previous previous) || not (r.core.sequence == n + 1)
      then some chain_mismatch
      else if not (str_eq r.hash (sealing.digest previous r.core))
      then some hash_mismatch
      else if not (str_eq r.signer signer)
          || (not (str_eq r.algorithm "hmac-sha256")
              || not (str_eq (sealing.sign (sealing.digest previous r.core) r.signer) r.signature))
      then some signature_mismatch
      else none

  unfoldable pub scan : String → String → ℕ → List String → List (Line (Row P)) → Scan
  unfolding check_row scan_next
  scan signer previous n seen [] = scanned n previous seen
  scan signer previous n seen (broken ∷ ls) = fault n unreadable
  scan signer previous n seen (row r ∷ ls) =
      let h = sealing.digest previous r.core in
      let rest = scan signer h (n + 1) (h ∷ seen) ls in
      scan_next (check_row signer previous n r) n rest

  -- The first half of `verify`
  unfoldable pub scan_chain : String → List (Line (Row P)) → Scan
  unfolding scan
  scan_chain signer ls = scan signer zero_hash 0 [] ls
