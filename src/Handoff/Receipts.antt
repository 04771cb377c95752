-- ===== src/Handoff/Receipts.antt =====
-- `make_ready_receipt` and `verify_ready_receipt` of backend/planned_handoff.py: the target's signed
-- answer to an offer. The offer is the source's own record of its facts.
use stageforge.Prelude.{
  ◌≡◌, refl, inl, inr, Bool, Option-cases, true, false, not, ◌&&◌, ◌||◌, if◌then◌else◌, String,
  str_eq, str_eq_iff, Option, none, some, arith,
}
use stageforge.Prelude.Int.{ℤ, pos, ◌≤ℤ◌, ltb_ℤ, eqb_ℤ, eqb_ℤ_iff}
use stageforge.Prelude.Text.{is_set}
use stageforge.Secrets.{Keys, Auth, AuthError, Auth-cases, secret, refused}
use stageforge.Handoff.Offers.{OfferFacts, secret_for}

-- The signed payload of a receipt
pub record ReceiptFacts : Type 0 where
  pub version : ℤ
  pub receipt_type : String
  pub transaction : ℤ
  pub source : String
  pub target : String
  pub source_epoch : ℤ
  pub target_epoch : ℤ
  pub target_show_ns : ℤ
  pub program_ready : Bool
  pub issued_at : ℤ
  pub key_id : Option String

-- A receipt as it arrives
pub record ReadyReceipt : Type 0 where
  pub facts : Option ReceiptFacts
  pub digest : String
  pub hmac : String

pub data ReceiptVerdict : Type 0 where
  good_receipt malformed_receipt other_source fencing_mismatch key_mismatch predates_offer
        receipt_digest_mismatch receipt_failed :
      ReceiptVerdict
  receipt_refused : AuthError → ReceiptVerdict

unfoldable pub receipt_facts : OfferFacts → Bool → ℤ → Option String → ReceiptFacts
receipt_facts offer ready now key_id = record {
  version = pos 1;
  receipt_type = "target-ready";
  transaction = offer.transaction;
  source = offer.source;
  target = offer.target;
  source_epoch = offer.source_epoch;
  target_epoch = offer.target_epoch;
  target_show_ns = offer.target_show_ns;
  program_ready = ready;
  issued_at = now;
  key_id = key_id;
}

abbrev pub same_key : Option String → Option String → Bool
same_key none none = true
same_key (some a) (some b) = str_eq a b
same_key _ _ = false

same_key_refl : (k : Option String) → same_key k k ≡ true
same_key_refl none = refl
same_key_refl (some a) = ground (arith, str_eq_iff a a)

same_key_sound : (j k : Option String) → same_key j k ≡ true → j ≡ k
same_key_sound none none h = refl
same_key_sound none (some b) h = absurd (cc)
same_key_sound (some a) none h = absurd (cc)
same_key_sound (some a) (some b) h = let e : a ≡ b = ground (arith, str_eq_iff a b) in cc

-- The facts that a receipt repeats from the offer
unfoldable pub same_transfer : ReceiptFacts → OfferFacts → Bool
same_transfer r o =
    eqb_ℤ r.transaction o.transaction
    && (str_eq r.source o.source
        && (str_eq r.target o.target
            && (eqb_ℤ r.source_epoch o.source_epoch
                && (eqb_ℤ r.target_epoch o.target_epoch
                    && eqb_ℤ r.target_show_ns o.target_show_ns))))

same_transfer_sound :
    (r : ReceiptFacts) (o : OfferFacts)
    → same_transfer r o ≡ true
    → (r.transaction ≡ o.transaction)
      × (r.source ≡ o.source)
      × (r.target ≡ o.target)
      × (r.source_epoch ≡ o.source_epoch)
      × (r.target_epoch ≡ o.target_epoch)
      × (r.target_show_ns ≡ o.target_show_ns)
unfolding same_transfer
same_transfer_sound r o h = (
  ground (arith, eqb_ℤ_iff r.transaction o.transaction),
  ground (arith, str_eq_iff r.source o.source),
  ground (arith, str_eq_iff r.target o.target),
  ground (arith, eqb_ℤ_iff r.source_epoch o.source_epoch),
  ground (arith, eqb_ℤ_iff r.target_epoch o.target_epoch),
  ground (arith, eqb_ℤ_iff r.target_show_ns o.target_show_ns),
)

same_transfer_refl :
    (o : OfferFacts) (ready : Bool) (now : ℤ) (key_id : Option String)
    → same_transfer (receipt_facts o ready now key_id) o ≡ true
unfolding same_transfer receipt_facts
same_transfer_refl o ready now key_id = ground (
  arith,
  eqb_ℤ_iff o.transaction o.transaction,
  str_eq_iff o.source o.source,
  str_eq_iff o.target o.target,
  eqb_ℤ_iff o.source_epoch o.source_epoch,
  eqb_ℤ_iff o.target_epoch o.target_epoch,
  eqb_ℤ_iff o.target_show_ns o.target_show_ns,
)

repeats :
    (f : ReceiptFacts) (o : OfferFacts)
    → f.version ≡ pos 1
    → f.receipt_type ≡ "target-ready"
    → same_transfer f o ≡ true
    → same_key f.key_id o.key_id ≡ true
    → f ≡ receipt_facts o f.program_ready f.issued_at o.key_id
unfolding receipt_facts
repeats f o v t h k =
    let (a, b, c, d, e, g) = same_transfer_sound f o h in
    let l = same_key_sound f.key_id o.key_id k in cc

module _ (digest : ReceiptFacts → String) (hmac : String → String → String) where
  -- `make_ready_receipt`; `none` is the `RuntimeError`
  unfoldable pub make_ready_receipt :
      OfferFacts → Bool → ℤ → Option String → String → Option ReadyReceipt
  unfolding receipt_facts
  make_ready_receipt offer ready now key_id key =
      let f = receipt_facts offer ready now key_id in
      if not (is_set key)
      then none
      else some (record { facts = some f; digest = digest f; hmac = hmac key (digest f) })

  -- The end of `verify_ready_receipt`, under the secret that has been resolved
  unfoldable pub check_receipt_secret : ReceiptFacts → String → Auth → ReceiptVerdict
  check_receipt_secret f signature (refused e) = receipt_refused e
  check_receipt_secret f signature (secret s) =
      if not (is_set s) || not (str_eq (hmac s (digest f)) signature)
      then receipt_failed
      else good_receipt

  unfoldable pub verify_receipt_facts :
      ReceiptFacts → String → String → String → Option Keys → String → OfferFacts → ReceiptVerdict
  unfolding check_receipt_secret
  verify_receipt_facts f given_digest signature given keyset source offer =
      if not (eqb_ℤ f.version (pos 1))
        || (not (str_eq f.receipt_type "target-ready") || not (str_eq f.source source))
      then other_source
      else if not (same_transfer f offer)
      then fencing_mismatch
      else if not (same_key f.key_id offer.key_id)
      then key_mismatch
      else if ltb_ℤ f.issued_at offer.issued_at
      then predates_offer
      else if not (str_eq (digest f) given_digest)
      then receipt_digest_mismatch
      else check_receipt_secret f signature (secret_for given keyset f.key_id)

  -- `verify_ready_receipt`
  unfoldable pub verify_ready_receipt :
      ReadyReceipt → String → Option Keys → String → OfferFacts → ReceiptVerdict
  unfolding verify_receipt_facts
  verify_ready_receipt r given keyset source offer = elim r.facts [
    | none ↦ malformed_receipt
    | some f ↦ verify_receipt_facts f r.digest r.hmac given keyset source offer
  ]

  -- What the source knows of a receipt that it has verified against its offer
  pub record IsReceiptOf (offer : OfferFacts) (r : ReadyReceipt) (f : ReceiptFacts) (given : String)
      (keyset : Option Keys) : Type 0 where
    pub spelled : r.facts ≡ some f
    pub repeated : f ≡ receipt_facts offer f.program_ready f.issued_at offer.key_id
    pub later : offer.issued_at ≤ℤ f.issued_at
    pub digested : digest f ≡ r.digest
    pub key : String
    pub resolved : secret_for given keyset f.key_id ≡ secret key
    pub keyed : is_set key ≡ true
    pub signed : hmac key (digest f) ≡ r.hmac

  verify_facts-IsReceiptOf :
      (f : ReceiptFacts) (r : ReadyReceipt) (given : String) (keyset : Option Keys) (node : String)
      (offer : OfferFacts)
      → r.facts ≡ some f
      → verify_receipt_facts f r.digest r.hmac given keyset node offer ≡ good_receipt
      → IsReceiptOf offer r f given keyset
  unfolding verify_receipt_facts
  verify_facts-IsReceiptOf f r given keyset node offer spelled h =
      elim (Auth-cases (secret_for given keyset f.key_id)) [
        | inl (s, e) ↦ record {
          spelled = spelled;
          repeated =
              repeats f offer (ground (arith, eqb_ℤ_iff f.version (pos 1)))
                (ground (arith, str_eq_iff f.receipt_type "target-ready")) (ground arith)
                (ground arith);
          later = ground arith;
          digested = ground (arith, str_eq_iff (digest f) r.digest);
          key = s;
          resolved = e;
          keyed = ground arith;
          signed = ground (arith, str_eq_iff (hmac s (digest f)) r.hmac);
        }
        | inr (x, e) ↦ absurd (ground arith)
      ]

  -- A receipt that is verified against an offer repeats its whole transaction, its key and nothing
  -- else but whether the program is ready and when it was issued, which is not before the offer; and it
  -- bears the HMAC of these facts under a secret that is resolved and is not empty.
  pub verify_ready_receipt-IsReceiptOf :
      (r : ReadyReceipt) (given : String) (keyset : Option Keys) (node : String)
      (offer : OfferFacts)
      → verify_ready_receipt r given keyset node offer ≡ good_receipt
      → (f : ReceiptFacts) × IsReceiptOf offer r f given keyset
  unfolding verify_ready_receipt
  verify_ready_receipt-IsReceiptOf r given keyset node offer h = elim (Option-cases r.facts) [
    | inl e ↦ absurd (ground arith)
    | inr (f, e) ↦ (f, verify_facts-IsReceiptOf f r given keyset node offer e (ground arith))
  ]

  verify_made :
      (offer : OfferFacts) (ready : Bool) (now : ℤ) (key given : String) (keyset : Option Keys)
      → is_set key ≡ true
      → offer.issued_at ≤ℤ now
      → secret_for given keyset offer.key_id ≡ secret key
      → verify_receipt_facts
          (receipt_facts offer ready now offer.key_id)
          (digest (receipt_facts offer ready now offer.key_id))
          (hmac key (digest (receipt_facts offer ready now offer.key_id)))
          given
          keyset
          offer.source
          offer
        ≡ good_receipt
  unfolding verify_receipt_facts receipt_facts check_receipt_secret
  verify_made offer ready now key given keyset set later resolved =
      let d = digest (receipt_facts offer ready now offer.key_id) in
      let moved = same_transfer_refl offer ready now offer.key_id in
      let src : str_eq offer.source offer.source ≡ true =
        ground (arith, str_eq_iff offer.source offer.source) in
      let key_same = same_key_refl offer.key_id in
      let early : ltb_ℤ now offer.issued_at ≡ false = ground arith in
      let dig : str_eq d d ≡ true = ground (arith, str_eq_iff d d) in
      let mac : str_eq (hmac key d) (hmac key d) ≡ true =
        ground (arith, str_eq_iff (hmac key d) (hmac key d)) in
      let typ : str_eq "target-ready" "target-ready" ≡ true =
        ground (arith, str_eq_iff "target-ready" "target-ready") in
      rw (typ, src, moved, key_same, early, dig, resolved, set, mac) refl

  -- The receipt that a target makes of an offer, not before it was issued and under its key, is
  -- verified by the source, under the secret that the receipt was made with.
  pub verify-make_ready_receipt :
      (offer : OfferFacts) (ready : Bool) (now : ℤ) (key given : String) (keyset : Option Keys)
      (r : ReadyReceipt)
      → make_ready_receipt offer ready now offer.key_id key ≡ some r
      → offer.issued_at ≤ℤ now
      → secret_for given keyset offer.key_id ≡ secret key
      → verify_ready_receipt r given keyset offer.source offer ≡ good_receipt
  unfolding make_ready_receipt verify_ready_receipt
  verify-make_ready_receipt offer ready now key given keyset r h later resolved =
      let f = receipt_facts offer ready now offer.key_id in
      let same : record { facts = some f; digest = digest f; hmac = hmac key (digest f) } ≡ r =
        ground arith in
      let set : is_set key ≡ true = ground arith in
      rw (← same) (verify_made offer ready now key given keyset set later resolved)
