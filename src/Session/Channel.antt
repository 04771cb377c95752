-- ===== src/Session/Channel.antt =====
-- `AuthenticatedSessionChannel` of backend/session_channel.py. HMAC-SHA256 is the parameter `hmac`, of
-- a key and a message; texts that enter a key's derivation are given as their bytes. Counters and
-- epochs are naturals: the constructor demands an epoch of at least 1, and they only grow.
use stageforge.Prelude.{
  ℕ, ◌+◌, ◌==◌, leb, ltb, Bool, false, not, ◌&&◌, ◌||◌, if◌then◌else◌, List, [], ◌∷◌, ◌++◌, length,
  take, drop, Option, none, some,
}
use stageforge.Prelude.Bytes.{Bytes, bytes_eq, bound, be, of_be}

abbrev pub max_payload : ℕ
max_payload = 4096

-- `_PREFIX.size`: 4 + 1 + 1 + 2 + 16 + 8 + 8 + 8 + 4
abbrev pub prefix_size : ℕ
prefix_size = 52

abbrev pub header_size : ℕ
header_size = 84

-- `MAGIC`, the bytes of "UPPF"
abbrev pub magic : Bytes
magic = 85 ∷ 80 ∷ 80 ∷ 70 ∷ []

-- The bytes of "UPP-SESSION-CHANNEL-V1\0"
abbrev key_label : Bytes
key_label =
    85 ∷ 80 ∷ 80 ∷ 45 ∷ 83 ∷ 69 ∷ 83 ∷ 83 ∷ 73 ∷ 79 ∷ 78 ∷ 45 ∷ 67 ∷ 72 ∷ 65 ∷ 78 ∷ 78 ∷ 69 ∷ 76
    ∷ 45 ∷ 86 ∷ 49 ∷ 0 ∷ []

pub record Channel : Type 0 where
  pub root_key : Bytes
  pub session : Bytes
  pub transcript : Bytes
  pub allowed : List ℕ
  pub send_direction : Bytes
  pub receive_direction : Bytes
  pub key_epoch : ℕ
  pub previous_key_epoch : ℕ
  pub rotation_grace : ℕ
  pub previous_accept_until : ℕ
  pub outbound_sequence : ℕ
  pub inbound_sequence : ℕ
  pub accepted : ℕ
  pub rejected : ℕ

-- `value in self.allowed`
abbrev pub elem : ℕ → List ℕ → Bool
elem n [] = false
elem n (x ∷ xs) = x == n || elem n xs

-- What `derive_direction_key` demands of its inputs; an epoch of more than 8 bytes overflows.
unfoldable pub derivable : Bytes → Bytes → ℕ → Bytes → Bool
derivable root transcript epoch direction =
    ltb 0 (length root)
    && (length transcript == 32
        && (ltb 0 epoch && (ltb 0 (length direction) && ltb epoch (bound 8))))

pub data FrameError : Type 0 where
  not_allowed too_long overflow truncated unsupported other_session bad_size replayed bad_epoch
        bad_key bad_tag :
      FrameError

pub data Result {ℓ} (A : Type ℓ) : Type ℓ where
  done : A → Result A
  failed : FrameError → Result A

-- The fields of a frame's prefix, `>4sBBH16sQQQI`
pub record Prefix : Type 0 where
  pub magic_bytes : Bytes
  pub version : ℕ
  pub flags : ℕ
  pub header : ℕ
  pub session : Bytes
  pub key_epoch : ℕ
  pub sequence : ℕ
  pub capability : ℕ
  pub size : ℕ

-- `_PREFIX.pack`, of fields that fit
unfoldable pub pack : Prefix → Bytes
pack p =
    p.magic_bytes
    ++ (be 1 p.version
        ++ (be 1 p.flags
            ++ (be 2 p.header
                ++ (p.session
                    ++ (be 8 p.key_epoch
                        ++ (be 8 p.sequence ++ (be 8 p.capability ++ be 4 p.size)))))))

-- `_PREFIX.unpack`, of as many bytes as it takes
unfoldable pub unpack : Bytes → Prefix
unpack b0 =
    let b1 = drop 4 b0 in
    let b2 = drop 1 b1 in
    let b3 = drop 1 b2 in
    let b4 = drop 2 b3 in
    let b5 = drop 16 b4 in
    let b6 = drop 8 b5 in
    let b7 = drop 8 b6 in
    let b8 = drop 8 b7 in
    record {
      magic_bytes = take 4 b0;
      version = of_be (take 1 b1);
      flags = of_be (take 1 b2);
      header = of_be (take 2 b3);
      session = take 16 b4;
      key_epoch = of_be (take 8 b5);
      sequence = of_be (take 8 b6);
      capability = of_be (take 8 b7);
      size = of_be b8;
    }

-- The prefix of a channel's next frame
unfoldable pub next_prefix : ℕ → ℕ → Channel → Prefix
next_prefix capability size c = record {
  magic_bytes = magic;
  version = 1;
  flags = 0;
  header = header_size;
  session = c.session;
  key_epoch = c.key_epoch;
  sequence = c.outbound_sequence + 1;
  capability = capability;
  size = size;
}

-- What `decode` returns of an accepted frame
pub record Receipt : Type 0 where
  pub key_epoch : ℕ
  pub sequence : ℕ
  pub capability : ℕ
  pub payload : Bytes

-- The tests of `decode` on the fields of a frame, in their order.
unfoldable pub check_prefix : Prefix → ℕ → Channel → Option FrameError
check_prefix p n c =
    if not (
      bytes_eq p.magic_bytes magic && (p.version == 1 && (p.flags == 0 && p.header == header_size)))
    then some unsupported
    else if not (bytes_eq p.session c.session)
    then some other_session
    else if ltb max_payload p.size || not (n == header_size + p.size)
    then some bad_size
    else if not (elem p.capability c.allowed)
    then some not_allowed
    else if leb p.sequence c.inbound_sequence
    then some replayed
    else if not (p.key_epoch == c.key_epoch)
        && not (p.key_epoch == c.previous_key_epoch && leb p.sequence c.previous_accept_until)
    then some bad_epoch
    else none

abbrev pub receipt_of : Bytes → Receipt
receipt_of frame =
    let p = unpack (take prefix_size frame) in
    record {
      key_epoch = p.key_epoch;
      sequence = p.sequence;
      capability = p.capability;
      payload = drop header_size frame;
    }

module _ (hmac : Bytes → Bytes → Bytes) where
  -- `derive_direction_key`, of inputs that it takes
  unfoldable pub direction_key : Bytes → Bytes → ℕ → Bytes → Bytes
  direction_key root transcript epoch direction =
      hmac root (key_label ++ transcript ++ be 8 epoch ++ direction)

  unfoldable pub tag_of : Channel → Bytes → ℕ → Bytes → Bytes → Bytes
  unfolding direction_key
  tag_of c direction epoch prefix payload =
      hmac (direction_key c.root_key c.transcript epoch direction) (prefix ++ payload)

  -- `encode`, past its two tests: the sequence has been counted when a field overflows.
  unfoldable pub encode_next : ℕ → Bytes → Channel → Result Bytes × Channel
  unfolding tag_of pack next_prefix
  encode_next capability payload c =
      let c' = record c { outbound_sequence = c.outbound_sequence + 1 } in
      let prefix = pack (next_prefix capability (length payload) c) in
      if leb (bound 8) c.key_epoch
        || (leb (bound 8) (c.outbound_sequence + 1) || leb (bound 8) capability)
      then (failed overflow, c')
      else if not (derivable c.root_key c.transcript c.key_epoch c.send_direction)
      then (failed bad_key, c')
      else (done (prefix ++ (tag_of c c.send_direction c.key_epoch prefix payload ++ payload)), c')

  unfoldable pub encode : ℕ → Bytes → Channel → Result Bytes × Channel
  unfolding encode_next
  encode capability payload c =
      if not (elem capability c.allowed)
      then (failed not_allowed, c)
      else if ltb max_payload (length payload)
      then (failed too_long, c)
      else encode_next capability payload c

  -- The key and the tag
  unfoldable pub check_tag : Prefix → Bytes → Channel → Option FrameError
  unfolding tag_of derivable
  check_tag p frame c =
      if not (derivable c.root_key c.transcript p.key_epoch c.receive_direction)
      then some bad_key
      else if not (
          bytes_eq (take 32 (drop prefix_size frame)) (
            tag_of c c.receive_direction p.key_epoch (take prefix_size frame)
              (drop header_size frame)))
      then some bad_tag
      else none

  unfoldable pub check_frame : Bytes → Channel → Option FrameError
  unfolding check_prefix check_tag
  check_frame frame c =
      if ltb (length frame) header_size
      then some truncated
      else elim (check_prefix (unpack (take prefix_size frame)) (length frame) c) [
        | some e ↦ some e
        | none ↦ check_tag (unpack (take prefix_size frame)) frame c
      ]

  unfoldable pub decode : Bytes → Channel → Result Receipt × Channel
  unfolding check_frame
  decode frame c = elim (check_frame frame c) [
    | some e ↦ (failed e, record c { rejected = c.rejected + 1 })
    | none ↦ (
      done (receipt_of frame),
      record c { inbound_sequence = (receipt_of frame).sequence; accepted = c.accepted + 1 },
    )
  ]

-- `rotate`; `none` is the `ValueError`
unfoldable pub rotate : ℕ → Channel → Option Channel
rotate epoch c =
    if leb epoch c.key_epoch
    then none
    else some (record c {
      previous_key_epoch = c.key_epoch;
      key_epoch = epoch;
      previous_accept_until = c.inbound_sequence + c.rotation_grace;
    })
