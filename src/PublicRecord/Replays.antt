-- ===== src/PublicRecord/Replays.antt =====
-- What `attest` does with an attestation that it has accepted
use stageforge.Prelude.{
  ◌≡◌, refl, String, str_eq, str_eq_refl, Bool, Bool-cases, true, false, ◌&&◌, Option, none, some,
  List, [], ◌∷◌, ◌++◌, inl, inr, arith,
}
use stageforge.Prelude.Dict.{Dict, lookup}
use stageforge.PublicRecord.Chain.{Row, Line, row, broken, last_hash}
use stageforge.PublicRecord.Attesting.{
  WitnessPolicy, Attestation, WitnessRow, Witnessing, accepted, attest_sealed, attest_with,
  knows_record, Search, replayed, fresh, unreadable_line, find_replay, previous_text, witness_row,
  attest_new, attest_record, attest_by, attest,
}

-- The search finds a row that is added where there was none.
find_replay-added :
    (w : WitnessRow) (ws : List (Line WitnessRow))
    → find_replay w.event.witness w.event.record_hash ws ≡ fresh
    → find_replay w.event.witness w.event.record_hash (ws ++ (row w ∷ [])) ≡ replayed w.event
unfolding find_replay
find_replay-added w [] h = rw (str_eq_refl w.event.witness, str_eq_refl w.event.record_hash) refl
find_replay-added w (broken ∷ ws) h = ground arith
find_replay-added w (row r ∷ ws) h =
    elim (Bool-cases
      (str_eq r.event.witness w.event.witness && str_eq r.event.record_hash w.event.record_hash)) [
        | inl hit ↦ ground (arith, hit)
        | inr miss ↦ rw miss (find_replay-added w ws (ground (arith, miss)))
      ]

module _ (witnessing : Witnessing) (a : Attestation) where
  new_again :
      (s : Search) (ws : List (Line WitnessRow))
      → find_replay a.witness a.record_hash ws ≡ s
      → (attest_new witnessing s a ws).0 ≡ accepted a false
      → attest_new witnessing
          (find_replay a.witness a.record_hash (attest_new witnessing s a ws).1)
          a
          (attest_new witnessing s a ws).1
        ≡ (accepted a true, (attest_new witnessing s a ws).1)
  unfolding attest_new witness_row
  new_again (replayed e) ws f h = ground arith
  new_again unreadable_line ws f h = ground arith
  new_again fresh ws f h =
      rw
        (
          find_replay-added (witness_row witnessing (previous_text (last_hash (λ r. r.hash) ws)) a)
              ws f,
          attest_new,
        )
        refl

  record_again :
      (o : Option Bool) (ws : List (Line WitnessRow))
      → (attest_record witnessing o a ws).0 ≡ accepted a false
      → attest_record witnessing o a (attest_record witnessing o a ws).1
        ≡ (accepted a true, (attest_record witnessing o a ws).1)
  unfolding attest_record
  record_again none ws h = ground arith
  record_again (some false) ws h = ground arith
  record_again (some true) ws h = new_again (find_replay a.witness a.record_hash ws) ws refl h

  sealed_again :
      (b : Bool) (o : Option Bool) (ws : List (Line WitnessRow))
      → (attest_sealed witnessing b o a ws).0 ≡ accepted a false
      → attest_sealed witnessing b o a (attest_sealed witnessing b o a ws).1
        ≡ (accepted a true, (attest_sealed witnessing b o a ws).1)
  unfolding attest_sealed
  sealed_again false o ws h = ground arith
  sealed_again true o ws h = record_again o ws h

  module _ {P : Type 0} (ls : List (Line (Row P))) (ws : List (Line WitnessRow)) where
    by_again :
        (s : Option String)
        → (attest_by witnessing s a ls ws).0 ≡ accepted a false
        → attest_by witnessing s a ls (attest_by witnessing s a ls ws).1
          ≡ (accepted a true, (attest_by witnessing s a ls ws).1)
    unfolding attest_by
    by_again none h = ground arith
    by_again (some secret) h = sealed_again _ (knows_record a.record_hash ls) ws h

    with_again :
        (d : Dict String)
        → (attest_with witnessing d a ls ws).0 ≡ accepted a false
        → attest_with witnessing d a ls (attest_with witnessing d a ls ws).1
          ≡ (accepted a true, (attest_with witnessing d a ls ws).1)
    unfolding attest_with
    with_again [] h = ground arith
    with_again (w ∷ others) h = by_again (lookup a.witness (w ∷ others)) h

    -- An attestation that `attest` accepts as new is accepted again as a replay, and writes nothing then.
    pub attest_again :
        (policy : Option WitnessPolicy)
        → (attest witnessing policy a ls ws).0 ≡ accepted a false
        → attest witnessing policy a ls (attest witnessing policy a ls ws).1
          ≡ (accepted a true, (attest witnessing policy a ls ws).1)
    unfolding attest
    attest_again none h = ground arith
    attest_again (some policy) h = with_again policy.witnesses h
