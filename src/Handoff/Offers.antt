-- ===== src/Handoff/Offers.antt =====
-- `make_offer` and `verify_offer` of backend/planned_handoff.py. SHA-256 over the JSON encoding of the
-- facts is the parameter `digest`, and HMAC-SHA256 of a secret and a digest the parameter `hmac`.
use stageforge.Prelude.{
  ◌≡◌, refl, ◌⊎◌, inl, inr, Bool, Option-cases, true, not, ◌||◌, if◌then◌else◌, String, str_eq,
  str_eq_iff, Option, none, some, arith,
}
use stageforge.Prelude.Int.{ℤ, pos, ◌<ℤ◌, ltb_ℤ, leb_ℤ, eqb_ℤ, eqb_ℤ_iff}
use stageforge.Prelude.Text.{is_set}
use stageforge.Secrets.{Keys, Auth, AuthError, Auth-cases, secret, refused, resolve}

-- The signed payload of an offer
pub record OfferFacts : Type 0 where
  pub version : ℤ
  pub transaction : ℤ
  pub source : String
  pub target : String
  pub source_epoch : ℤ
  pub target_epoch : ℤ
  pub target_show_ns : ℤ
  pub allow_degraded : Bool
  pub issued_at : ℤ
  pub key_id : Option String

-- An offer as it arrives; `facts` is `none` where one is missing or cannot be read.
pub record Offer : Type 0 where
  pub facts : Option OfferFacts
  pub digest : String
  pub hmac : String

pub data MakeError : Type 0 where
  no_secret no_identity bad_boundary : MakeError

pub data OfferVerdict : Type 0 where
  good_offer malformed_offer other_target bad_facts offer_digest_mismatch offer_failed :
      OfferVerdict
  offer_refused : AuthError → OfferVerdict

-- `payload["transactionId"] <= 0`, and so on
abbrev pub is_positive : ℤ → Bool
is_positive a = ltb_ℤ (pos 0) a

-- The secret that a message is verified with
unfoldable pub secret_for : String → Option Keys → Option String → Auth
secret_for given none key_id = secret given
secret_for given (some k) key_id = resolve k key_id

unfoldable pub offer_facts : ℤ → String → String → ℤ → ℤ → ℤ → Bool → ℤ → Option String → OfferFacts
offer_facts transaction source target source_epoch target_epoch target_show_ns degraded now key_id =
    record {
      version = pos 1;
      transaction = transaction;
      source = source;
      target = target;
      source_epoch = source_epoch;
      target_epoch = target_epoch;
      target_show_ns = target_show_ns;
      allow_degraded = degraded;
      issued_at = now;
      key_id = key_id;
    }

module _ (digest : OfferFacts → String) (hmac : String → String → String) where
  abbrev pub sealed_offer : OfferFacts → String → Offer
  sealed_offer f key = record { facts = some f; digest = digest f; hmac = hmac key (digest f) }

  -- `make_offer` of the facts that it has collected
  unfoldable pub make_offer : OfferFacts → String → MakeError ⊎ Offer
  make_offer f key =
      if not (is_set key)
      then inl no_secret
      else if not (is_positive f.transaction) || (not (is_set f.source) || not (is_set f.target))
      then inl no_identity
      else if leb_ℤ f.target_epoch f.source_epoch || not (is_positive f.target_show_ns)
      then inl bad_boundary
      else inr (sealed_offer f key)

  -- The end of `verify_offer`, under the secret that has been resolved
  unfoldable pub check_offer_secret : OfferFacts → String → Auth → OfferVerdict
  check_offer_secret f signature (refused e) = offer_refused e
  check_offer_secret f signature (secret s) =
      if not (is_set s) || not (str_eq (hmac s (digest f)) signature)
      then offer_failed
      else good_offer

  unfoldable pub verify_facts :
      OfferFacts → String → String → String → Option Keys → String → OfferVerdict
  unfolding check_offer_secret
  verify_facts f given_digest signature given keyset target =
      if not (eqb_ℤ f.version (pos 1)) || not (str_eq f.target target)
      then other_target
      else if not (is_positive f.transaction)
          || (leb_ℤ f.target_epoch f.source_epoch || not (is_positive f.target_show_ns))
      then bad_facts
      else if not (str_eq (digest f) given_digest)
      then offer_digest_mismatch
      else check_offer_secret f signature (secret_for given keyset f.key_id)

  -- `verify_offer`
  unfoldable pub verify_offer : Offer → String → Option Keys → String → OfferVerdict
  unfolding verify_facts
  verify_offer o given keyset target = elim o.facts [
    | none ↦ malformed_offer
    | some f ↦ verify_facts f o.digest o.hmac given keyset target
  ]

  -- What the target knows of an offer that it has verified
  pub record IsOffer (o : Offer) (f : OfferFacts) (given : String) (keyset : Option Keys)
      (node : String) : Type 0 where
    pub spelled : o.facts ≡ some f
    pub version : f.version ≡ pos 1
    pub addressed : f.target ≡ node
    pub positive : pos 0 <ℤ f.transaction
    pub onward : f.source_epoch <ℤ f.target_epoch
    pub in_show : pos 0 <ℤ f.target_show_ns
    pub digested : digest f ≡ o.digest
    pub key : String
    pub resolved : secret_for given keyset f.key_id ≡ secret key
    pub keyed : is_set key ≡ true
    pub signed : hmac key (digest f) ≡ o.hmac

  -- An offer that can be made is verified by the target that it names, under the secret that it was
  -- made with.
  pub verify-make_offer :
      (f : OfferFacts) (key given : String) (keyset : Option Keys) (o : Offer)
      → make_offer f key ≡ inr o
      → f.version ≡ pos 1
      → secret_for given keyset f.key_id ≡ secret key
      → verify_offer o given keyset f.target ≡ good_offer
  unfolding make_offer verify_offer
  verify-make_offer f key given keyset o h v r =
      let same : sealed_offer f key ≡ o = ground arith in
      let ver : eqb_ℤ f.version (pos 1) ≡ true = ground (arith, eqb_ℤ_iff f.version (pos 1)) in
      let tgt : str_eq f.target f.target ≡ true = ground (arith, str_eq_iff f.target f.target) in
      let dig : str_eq (digest f) (digest f) ≡ true =
        ground (arith, str_eq_iff (digest f) (digest f)) in
      let mac : str_eq (hmac key (digest f)) (hmac key (digest f)) ≡ true =
        ground (arith, str_eq_iff (hmac key (digest f)) (hmac key (digest f))) in
      rw (← same) (ground (arith, r))

  verify_facts-IsOffer :
      (f : OfferFacts) (given_digest signature given : String) (keyset : Option Keys)
      (node : String)
      → verify_facts f given_digest signature given keyset node ≡ good_offer
      → IsOffer
          (record { facts = some f; digest = given_digest; hmac = signature })
          f
          given
          keyset
          node
  unfolding verify_facts
  verify_facts-IsOffer f given_digest signature given keyset node h =
      elim (Auth-cases (secret_for given keyset f.key_id)) [
        | inl (s, e) ↦ record {
          spelled = refl;
          version = ground (arith, eqb_ℤ_iff f.version (pos 1));
          addressed = ground (arith, str_eq_iff f.target node);
          positive = ground arith;
          onward = ground arith;
          in_show = ground arith;
          digested = ground (arith, str_eq_iff (digest f) given_digest);
          key = s;
          resolved = e;
          keyed = ground arith;
          signed = ground (arith, str_eq_iff (hmac s (digest f)) signature);
        }
        | inr (x, e) ↦ absurd (ground arith)
      ]

  -- An offer that is verified spells facts of the known version for this very target, with a positive
  -- transaction, a greater epoch for the target and a boundary in the show, and it bears their digest
  -- and its HMAC under a secret that is resolved and is not empty.
  pub verify_offer-IsOffer :
      (o : Offer) (given : String) (keyset : Option Keys) (node : String)
      → verify_offer o given keyset node ≡ good_offer
      → (f : OfferFacts) × IsOffer o f given keyset node
  unfolding verify_offer
  verify_offer-IsOffer o given keyset node h = elim (Option-cases o.facts) [
    | inl e ↦ absurd (ground arith)
    | inr (f, e) ↦
        let h' : verify_facts f o.digest o.hmac given keyset node ≡ good_offer = ground arith in
        let q = verify_facts-IsOffer f o.digest o.hmac given keyset node h' in
        (
          f,
          record {
            spelled = e;
            version = q.version;
            addressed = q.addressed;
            positive = q.positive;
            onward = q.onward;
            in_show = q.in_show;
            digested = q.digested;
            key = q.key;
            resolved = q.resolved;
            keyed = q.keyed;
            signed = q.signed;
          },
        )
  ]
