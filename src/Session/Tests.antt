-- ===== src/Session/Tests.antt =====
-- A sender and its receiver with a simple code in place of HMAC, and the theorems about them.
use stageforge.Prelude.{ℕ, ◌+◌, ◌<◌, ◌≤◌, ◌≡◌, refl, ◌⊎◌, [], ◌∷◌, some, arith}
use stageforge.Prelude.Bytes.{Bytes, be, bound, read_be, length-be}
use stageforge.Session.Channel.{
  Channel, Receipt, done, failed, replayed, encode, decode, tag_of, direction_key, pack, unpack,
  next_prefix, receipt_of, rotate, derivable,
}
use stageforge.Session.Framing.{IsPeer, CanSend, frame_of, decode-encode}
use stageforge.Session.Acceptance.{Passed, decode-Passed}
use stageforge.Session.Ordering.{Op, run, sequences_increase, rotation_retires}
use stageforge.Session.Checkpoints.{
  Facts, checkpoint, restore, facts_of, subset, take_up, restore-checkpoint, restart_keeps_order,
}

abbrev sum_bytes : Bytes → ℕ
sum_bytes [] = 0
sum_bytes (b ∷ bs) = b + sum_bytes bs

abbrev code : Bytes → Bytes → Bytes
code key message = be 32 (sum_bytes key + sum_bytes message)

abbrev spell : Facts → Bytes
spell f = f.key_epoch ∷ f.outbound_sequence ∷ f.inbound_sequence ∷ f.allowed

abbrev sender : Channel
sender = record {
  root_key = 7 ∷ [];
  session = 1 ∷ 2 ∷ 3 ∷ 4 ∷ 5 ∷ 6 ∷ 7 ∷ 8 ∷ 9 ∷ 10 ∷ 11 ∷ 12 ∷ 13 ∷ 14 ∷ 15 ∷ 16 ∷ [];
  transcript = be 32 900;
  allowed = 5 ∷ 3 ∷ [];
  send_direction = 97 ∷ [];
  receive_direction = 98 ∷ [];
  key_epoch = 1;
  previous_key_epoch = 0;
  rotation_grace = 2;
  previous_accept_until = 0;
  outbound_sequence = 0;
  inbound_sequence = 0;
  accepted = 0;
  rejected = 0;
}

abbrev receiver : Channel
receiver = record sender { send_direction = 98 ∷ []; receive_direction = 97 ∷ [] }

abbrev note : Bytes
note = 10 ∷ 20 ∷ 30 ∷ []

abbrev second_sender : Channel
second_sender = record sender { outbound_sequence = 1 }

abbrev first_receipt : Receipt
first_receipt = record { key_epoch = 1; sequence = 1; capability = 5; payload = note }

abbrev second_receipt : Receipt
second_receipt = record { key_epoch = 1; sequence = 2; capability = 5; payload = note }

receiver-IsPeer : IsPeer sender receiver
receiver-IsPeer = record {
  root_key = refl;
  session = refl;
  sized = refl;
  transcript = refl;
  direction = refl;
  epoch = refl;
}

sender-CanSend : CanSend 5 note sender
unfolding bound be derivable
sender-CanSend = record {
  allowed = refl;
  short = omega arith;
  epoch = omega arith;
  sequence = omega arith;
  capability = omega arith;
  keyed = refl;
}

decode-encode_example :
    ((encode code 5 note sender).0 ≡ done (frame_of code 5 note sender))
    × ((decode code (frame_of code 5 note sender) receiver).0 ≡ done first_receipt)
decode-encode_example =
    decode-encode code 5 note sender receiver (λ k m. length-be 32 (sum_bytes k + sum_bytes m))
      receiver-IsPeer sender-CanSend refl (omega arith)

first_frame : (decode code (frame_of code 5 note sender) receiver).0 ≡ done first_receipt
unfolding decode frame_of tag_of direction_key pack unpack next_prefix be read_be bound
first_frame = refl

-- The same frame a second time
repeated_frame-refused :
    (decode code
      (frame_of code 5 note sender)
      (decode code (frame_of code 5 note sender) receiver).1).0
    ≡ failed replayed
unfolding decode frame_of tag_of direction_key pack unpack next_prefix be read_be bound
repeated_frame-refused = refl

decode-Passed_example :
    Passed code (frame_of code 5 note sender) receiver
    × (first_receipt ≡ receipt_of (frame_of code 5 note sender))
    × ((decode code (frame_of code 5 note sender) receiver).1.inbound_sequence ≡ 1)
decode-Passed_example =
    decode-Passed code (frame_of code 5 note sender) receiver first_receipt first_frame

-- The key is rotated between two frames, and the second is within the grace.
second_frame :
    (decode code
      (frame_of code 5 note second_sender)
      (run code (Op.turn 2 ∷ []) (decode code (frame_of code 5 note sender) receiver).1)).0
    ≡ done second_receipt
unfolding decode frame_of tag_of direction_key pack unpack next_prefix be read_be bound run rotate
second_frame = refl

sequences_increase_example : 1 < 2
sequences_increase_example =
    sequences_increase code (frame_of code 5 note sender) (frame_of code 5 note second_sender)
      (Op.turn 2 ∷ []) receiver first_receipt second_receipt first_frame second_frame

abbrev turned_receiver : Channel
turned_receiver = record receiver {
  key_epoch = 2;
  previous_key_epoch = 1;
  previous_accept_until = 2;
}

late_frame :
    (decode code (frame_of code 5 note second_sender) (run code [] turned_receiver)).0
    ≡ done second_receipt
unfolding decode frame_of tag_of direction_key pack unpack next_prefix be read_be bound run
late_frame = refl

receiver-turns : rotate 2 receiver ≡ some turned_receiver
unfolding rotate
receiver-turns = refl

rotation_retires_example : (2 ≤ 1) ⊎ ((second_receipt.key_epoch ≡ receiver.key_epoch) × (2 ≤ 2))
rotation_retires_example =
    rotation_retires code (frame_of code 5 note second_sender) 2 [] receiver turned_receiver
      second_receipt receiver-turns late_frame

checkpoint-restored :
    restore code spell (checkpoint code spell turned_receiver) receiver
    ≡ some (take_up (facts_of turned_receiver) receiver)
checkpoint-restored = restore-checkpoint code spell turned_receiver receiver refl refl refl refl

-- The receiver restarts between the two frames.
abbrev restarted : Channel
restarted = record receiver { inbound_sequence = 1 }

restarts :
    restore code spell
      (checkpoint code spell (run code [] (decode code (frame_of code 5 note sender) receiver).1))
      receiver
    ≡ some restarted
unfolding decode frame_of tag_of direction_key pack unpack next_prefix be read_be bound run restore
    checkpoint subset
restarts = refl

after_restart :
    (decode code (frame_of code 5 note second_sender) (run code [] restarted)).0
    ≡ done second_receipt
unfolding decode frame_of tag_of direction_key pack unpack next_prefix be read_be bound run
after_restart = refl

restart_keeps_order_example : 1 < 2
restart_keeps_order_example =
    restart_keeps_order code spell (frame_of code 5 note sender)
      (frame_of code 5 note second_sender) [] [] receiver receiver restarted first_receipt
      second_receipt first_frame restarts after_restart
