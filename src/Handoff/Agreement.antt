-- ===== src/Handoff/Agreement.antt =====
-- A whole exchange: the source makes an offer, the target verifies it and answers, and the source
-- verifies the answer.
use stageforge.Prelude.{◌≡◌, Option, some, String, ap, sym, ◌∙◌}
use stageforge.Prelude.Int.{◌<ℤ◌}
use stageforge.Secrets.{Keys}
use stageforge.Handoff.Offers.{OfferFacts, Offer, verify_offer, good_offer, verify_offer-IsOffer}
use stageforge.Handoff.Receipts.{
  ReceiptFacts, ReadyReceipt, verify_ready_receipt, receipt_facts, good_receipt,
  verify_ready_receipt-IsReceiptOf,
}

module _ (digest : OfferFacts → String) (receipt_digest : ReceiptFacts → String)
    (hmac : String → String → String) where
  -- If the offer's facts do not collide with the source's own under the digest, then a target that has
  -- verified the offer under the digest of the source's facts and a source that has verified a receipt
  -- against these facts agree on the transaction, on both nodes and epochs and on the boundary, and the target's epoch is
  -- the greater.
  pub agreement :
      (mine : OfferFacts) (o : Offer) (r : ReadyReceipt) (given given' : String)
      (keyset keyset' : Option Keys) (target source : String)
      → ((f : OfferFacts) → o.facts ≡ some f → digest f ≡ digest mine → f ≡ mine)
      → o.digest ≡ digest mine
      → verify_offer digest hmac o given keyset target ≡ good_offer
      → verify_ready_receipt receipt_digest hmac r given' keyset' source mine ≡ good_receipt
      → (f : ReceiptFacts) × (o.facts ≡ some mine)
        × (r.facts ≡ some f)
        × (f ≡ receipt_facts mine f.program_ready f.issued_at mine.key_id)
        × (mine.target ≡ target)
        × (mine.source_epoch <ℤ mine.target_epoch)
  agreement mine o r given given' keyset keyset' target source apart d h k =
      let (f, i) = verify_offer-IsOffer digest hmac o given keyset target h in
      let (q, j) =
        verify_ready_receipt-IsReceiptOf receipt_digest hmac r given' keyset' source mine k in
      let same : f ≡ mine = apart f i.spelled (i.digested ∙ d) in
      (
        q,
        i.spelled ∙ ap some same,
        j.spelled,
        j.repeated,
        sym (ap (λ x. x.target) same) ∙ i.addressed,
        rw (← same) i.onward,
      )
