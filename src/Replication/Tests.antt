-- ===== src/Replication/Tests.antt =====
-- Runs of the tracker and of the envelopes, and the theorems about them at concrete inputs.
use stageforge.Prelude.{
  ℕ, ◌<◌, ◌≡◌, ◌≢◌, refl, ◌⊎◌, String, str_eq, true, arith, none, some, List, [], ◌∷◌,
}
use stageforge.Prelude.Int.{pos, ◌<ℤ◌, succ_ℤ, max_ℤ}
use stageforge.Prelude.Text.{is_set, strip, lower_is, clip, str_length}
use stageforge.Prelude.Dict.{lookup}
use stageforge.Secrets.{Keys, keyring_snapshot}
use stageforge.Replication.Tracker.{
  primary, standby, Tracker, Stamp, Position, accepted, new_tracker, parse_role, become, export,
  can_apply, read_header, mark_applied,
}
use stageforge.Replication.Ordering.{Op, run, perform, exports_increase}
use stageforge.Replication.Receiver.{
  Receiver, Event, react, react_all, finish_at, check_header, IsFrom, IsSerial,
}
use stageforge.Replication.Replays.{replay_refused}
use stageforge.Replication.Applying.{header_of, promotion_supersedes}
use stageforge.Replication.Envelope.{
  Service, Payload, make_envelope, verify_envelope, auth_secret, valid, make-verify,
}
use stageforge.Replication.Authenticity.{Spells, IsAuthentic, verify-IsAuthentic}

abbrev main_node : Tracker
main_node = new_tracker "main" "primary"

abbrev main_stamp : Stamp
main_stamp = record { node = "main"; epoch = pos 1; sequence = 1 }

abbrev main_exported : Tracker
main_exported = record main_node { export_sequence = 1 }

-- The node hands over, comes back, and exports again.
abbrev there_and_back : List Op
there_and_back = Op.role standby ∷ Op.role primary ∷ []

exports_increase_example : (pos 1 <ℤ pos 3) ⊎ ((pos 1 ≡ pos 3) × (1 < 1))
unfolding new_tracker parse_role strip lower_is clip is_set str_eq export run perform become succ_ℤ
exports_increase_example =
    exports_increase there_and_back main_node main_exported
      (record main_exported { epoch = pos 3; export_sequence = 1 }) main_stamp
      (record { node = "main"; epoch = pos 3; sequence = 1 }) refl refl

abbrev spare_node : Tracker
spare_node = new_tracker "spare" " Standby "

abbrev main_place : Position
main_place = record { source = "main"; epoch = pos 1; sequence = pos 1; revision = pos 4 }

main_header-IsFrom : IsFrom "main" (header_of main_stamp (pos 4))
unfolding read_header
main_header-IsFrom p e = ground arith

-- The main node's first envelope has been checked, and is not marked yet.
abbrev spare_checked : Receiver
spare_checked = record { tracker = spare_node; checked = main_place ∷ [] }

spare_checks :
    check_header (header_of main_stamp (pos 4)) (record { tracker = spare_node; checked = [] })
    ≡ spare_checked
unfolding check_header new_tracker parse_role strip lower_is clip is_set str_eq can_apply
    read_header
spare_checks = refl

-- The node adopts an epoch, and the same envelope comes again.
abbrev comes_again : List Event
comes_again = Event.adopt (pos 2) ∷ Event.begin (header_of main_stamp (pos 4)) ∷ []

comes_again-IsSerial : IsSerial "main" comes_again (finish_at 5 0 spare_checked)
unfolding IsSerial finish_at react
comes_again-IsSerial = (tt, ((main_header-IsFrom, refl), tt))

replay_refused_example :
    can_apply
      (react_all comes_again (finish_at 5 0 spare_checked)).tracker
      (header_of main_stamp (pos 4))
    ≢ accepted
unfolding read_header
replay_refused_example =
    replay_refused 5 (header_of main_stamp (pos 4)) main_place spare_checked comes_again refl refl
      comes_again-IsSerial

-- Two envelopes of the main node whose applications overlap: the second is marked before the first, and
-- is accepted again.
abbrev overlap : List Event
overlap =
    Event.begin (header_of main_stamp (pos 4))
    ∷ Event.begin (header_of (record main_stamp { sequence = 2 }) (pos 5))
    ∷ Event.finish 6 0
    ∷ Event.finish 7 0
    ∷ []

overlap-accepts :
    can_apply
      (react_all overlap (record { tracker = spare_node; checked = [] })).tracker
      (header_of (record main_stamp { sequence = 2 }) (pos 5))
    ≡ accepted
unfolding react_all react check_header finish_at new_tracker parse_role strip lower_is clip is_set
    str_eq can_apply read_header mark_applied
overlap-accepts = refl

-- A third node has followed the main node to the same place, with a greater sequence.
abbrev third_node : Tracker
third_node = record (new_tracker "third" "standby") {
  source_node_id = "main";
  applied_epoch = pos 1;
  applied_sequence = pos 9;
  applied_revision = pos 50;
}

abbrev spare_followed : Tracker
spare_followed = run (Op.mark 5 main_place ∷ []) spare_node

promotion_supersedes_example :
    can_apply third_node
      (header_of (record { node = "spare"; epoch = pos 2; sequence = 1 }) (pos 4))
    ≡ accepted
unfolding new_tracker parse_role strip lower_is clip is_set str_eq can_apply read_header run perform
    mark_applied export become succ_ℤ max_ℤ
promotion_supersedes_example =
    promotion_supersedes "spare" " Standby " (Op.mark 5 main_place ∷ []) spare_followed third_node
      (record (become primary spare_followed) { export_sequence = 1 })
      (record { node = "spare"; epoch = pos 2; sequence = 1 }) (pos 4) refl refl refl refl
      (omega arith)

-- A snapshot is its revision; the digest and the HMAC are fixed texts of one letter.
abbrev plain : Service ℕ ℕ
plain = record {
  digest = λ p. "d";
  hmac = λ s d. "h";
  revision_of = λ n. some (pos n);
  no_telemetry = 0;
}

hmac_set : (d : String) → is_set (plain.hmac "key" d) ≡ true
unfolding is_set str_eq
hmac_set d = refl

make-verify_example :
    verify_envelope plain
      (make_envelope plain 4 "main" (pos 1) (pos 1) "key" (some 7) none)
      "key"
      none
    ≡ valid
unfolding auth_secret
make-verify_example =
    make-verify plain 4 "main" (pos 1) (pos 1) (pos 4) "key" (some 7) none "key" none refl refl
      hmac_set

verify-IsAuthentic_example :
    (p : Payload ℕ ℕ) × Spells plain
      (make_envelope plain 4 "main" (pos 1) (pos 1) "key" none none)
      p
    × IsAuthentic plain p
        (make_envelope plain 4 "main" (pos 1) (pos 1) "key" none none).digest
        (make_envelope plain 4 "main" (pos 1) (pos 1) "key" none none).hmac
        "key"
        none
unfolding auth_secret
verify-IsAuthentic_example =
    verify-IsAuthentic plain (make_envelope plain 4 "main" (pos 1) (pos 1) "key" none none) "key"
      none
      (make-verify plain 4 "main" (pos 1) (pos 1) (pos 4) "key" none none "key" none refl refl
        hmac_set)

abbrev long_secret : String
long_secret = "0123456789abcdef0123456789abcdef"

abbrev ring : Keys
ring = record { active_key_id = some "k-1"; keys = ("k-1", long_secret) ∷ []; keyring_mode = true }

ring_accepted : keyring_snapshot "k-1" (("k-1", long_secret) ∷ []) ≡ some ring
unfolding keyring_snapshot lookup str_eq str_length
ring_accepted = refl
