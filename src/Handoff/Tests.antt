-- ===== src/Handoff/Tests.antt =====
-- A handoff from "main" to "spare", with constant texts for digests, and the theorems about it.
use stageforge.Prelude.{◌≡◌, refl, inl, inr, true, false, some, none, String, str_eq, arith}
use stageforge.Prelude.Int.{pos, ◌<ℤ◌}
use stageforge.Prelude.Text.{is_set}
use stageforge.Handoff.Offers.{
  OfferFacts, Offer, no_identity, make_offer, verify_offer, good_offer, other_target, secret_for,
  IsOffer, verify_offer-IsOffer, verify-make_offer,
}
use stageforge.Handoff.Receipts.{
  ReceiptFacts, ReadyReceipt, make_ready_receipt, verify_ready_receipt, receipt_facts, good_receipt,
  verify-make_ready_receipt,
}
use stageforge.Handoff.Agreement.{agreement}

abbrev offered : OfferFacts
offered = record {
  version = pos 1;
  transaction = pos 9;
  source = "main";
  target = "spare";
  source_epoch = pos 2;
  target_epoch = pos 3;
  target_show_ns = pos 1000;
  allow_degraded = false;
  issued_at = pos 50;
  key_id = none;
}

abbrev offer_digest : OfferFacts → String
offer_digest f = f.target

abbrev ready_digest : ReceiptFacts → String
ready_digest f = f.source

abbrev sign : String → String → String
sign key d = key

abbrev made : Offer
made = record { facts = some offered; digest = "spare"; hmac = "s3cret" }

offered-makes : make_offer offer_digest sign offered "s3cret" ≡ inr made
unfolding make_offer is_set str_eq
offered-makes = refl

nameless_offer-refused :
    make_offer offer_digest sign (record offered { target = "" }) "s3cret" ≡ inl no_identity
unfolding make_offer is_set str_eq
nameless_offer-refused = refl

offer-misdirected : verify_offer offer_digest sign made "s3cret" none "other" ≡ other_target
unfolding verify_offer str_eq
offer-misdirected = refl

made_offer-good : verify_offer offer_digest sign made "s3cret" none "spare" ≡ good_offer
unfolding secret_for
made_offer-good =
    verify-make_offer offer_digest sign offered "s3cret" "s3cret" none made offered-makes refl refl

verify_offer-IsOffer_example :
    (f : OfferFacts) × IsOffer offer_digest sign made f "s3cret" none "spare"
verify_offer-IsOffer_example =
    verify_offer-IsOffer offer_digest sign made "s3cret" none "spare" made_offer-good

abbrev answer : ReadyReceipt
answer = record {
  facts = some (record {
    version = pos 1;
    receipt_type = "target-ready";
    transaction = pos 9;
    source = "main";
    target = "spare";
    source_epoch = pos 2;
    target_epoch = pos 3;
    target_show_ns = pos 1000;
    program_ready = true;
    issued_at = pos 60;
    key_id = none;
  });
  digest = "main";
  hmac = "s3cret";
}

answer-made :
    make_ready_receipt ready_digest sign offered true (pos 60) offered.key_id "s3cret" ≡ some answer
unfolding make_ready_receipt is_set str_eq
answer-made = refl

made_receipt-good :
    verify_ready_receipt ready_digest sign answer "s3cret" none "main" offered ≡ good_receipt
unfolding secret_for
made_receipt-good =
    verify-make_ready_receipt ready_digest sign offered true (pos 60) "s3cret" "s3cret" none answer
      answer-made (omega arith) refl

no_collision :
    (f : OfferFacts) → made.facts ≡ some f → offer_digest f ≡ offer_digest offered → f ≡ offered
no_collision f e d = cc

agreement_example :
    (f : ReceiptFacts) × (made.facts ≡ some offered)
    × (answer.facts ≡ some f)
    × (f ≡ receipt_facts offered f.program_ready f.issued_at offered.key_id)
    × (offered.target ≡ "spare")
    × (pos 2 <ℤ pos 3)
agreement_example =
    agreement offer_digest ready_digest sign offered made answer "s3cret" "s3cret" none none "spare"
      "main" no_collision refl made_offer-good made_receipt-good
