-- ===== src/Session/Framing.antt =====
-- Frames from a sender to a receiver: a frame that a channel encodes is decoded by its peer.
use stageforge.Prelude.{
  ℕ, ◌+◌, ◌<◌, ◌≤◌, ◌≡◌, refl, sym, ap, leb, ltb, true, false, ◌++◌, length, take, drop,
  length-append, ◌∙◌, none, arith,
}
use stageforge.Prelude.Bytes.{Bytes, bytes_eq_refl, bound, take-append, drop-append, drop-drop}
use stageforge.Session.Channel.{
  Channel, Prefix, done, pack, unpack, next_prefix, encode, decode, check_frame, check_prefix,
  check_tag, tag_of, direction_key, receipt_of, elem, derivable, header_size, prefix_size,
  max_payload,
}
use stageforge.Session.Packing.{Fits, unpack-pack, length-pack}

-- The receiver's end of the sender's channel
pub record IsPeer (s r : Channel) : Type 0 where
  pub root_key : r.root_key ≡ s.root_key
  pub session : r.session ≡ s.session
  pub sized : length s.session ≡ 16
  pub transcript : r.transcript ≡ s.transcript
  pub direction : r.receive_direction ≡ s.send_direction
  pub epoch : r.key_epoch ≡ s.key_epoch

-- What lets a channel send a payload for a capability
pub record CanSend (wanted : ℕ) (payload : Bytes) (s : Channel) : Type 0 where
  pub allowed : elem wanted s.allowed ≡ true
  pub short : length payload ≤ max_payload
  pub epoch : s.key_epoch < bound 8
  pub sequence : s.outbound_sequence + 1 < bound 8
  pub capability : wanted < bound 8
  pub keyed : derivable s.root_key s.transcript s.key_epoch s.send_direction ≡ true

next_prefix-Fits :
    (capability : ℕ) (payload : Bytes) (s r : Channel)
    → IsPeer s r
    → CanSend capability payload s
    → Fits (next_prefix capability (length payload) s)
unfolding next_prefix bound
next_prefix-Fits capability payload s r p c = record {
  magic_bytes = refl;
  version = omega arith;
  flags = omega arith;
  header = omega arith;
  session = p.sized;
  key_epoch = c.epoch;
  sequence = c.sequence;
  capability = c.capability;
  size = omega (arith, c.short);
}

check_prefix_lem :
    (capability : ℕ) (payload : Bytes) (s r : Channel)
    → IsPeer s r
    → CanSend capability payload s
    → elem capability r.allowed ≡ true
    → r.inbound_sequence < s.outbound_sequence + 1
    → check_prefix (next_prefix capability (length payload) s) (header_size + length payload) r
      ≡ none
unfolding check_prefix next_prefix
check_prefix_lem capability payload s r p c a i =
    ground (arith, bytes_eq_refl s.session, p.session, p.epoch, c.short)

long_enough :
    (frame : Bytes) (n : ℕ)
    → length frame ≡ header_size + n
    → ltb (length frame) header_size ≡ false
long_enough frame n h = rw h (ground arith)

module _ (hmac : Bytes → Bytes → Bytes) where
  unfoldable pub frame_of : ℕ → Bytes → Channel → Bytes
  frame_of capability payload s =
      let prefix = pack (next_prefix capability (length payload) s) in
      prefix ++ (tag_of hmac s s.send_direction s.key_epoch prefix payload ++ payload)

  frame_parts :
      (capability : ℕ) (payload : Bytes) (s r : Channel)
      → ((k m : Bytes) → length (hmac k m) ≡ 32)
      → IsPeer s r
      → CanSend capability payload s
      → (take prefix_size (frame_of capability payload s)
          ≡ pack (next_prefix capability (length payload) s))
        × (take 32 (drop prefix_size (frame_of capability payload s))
            ≡ tag_of hmac s s.send_direction s.key_epoch
                (pack (next_prefix capability (length payload) s))
                payload)
        × (drop header_size (frame_of capability payload s) ≡ payload)
        × (length (frame_of capability payload s) ≡ header_size + length payload)
  unfolding frame_of tag_of
  frame_parts capability payload s r sized p c =
      let q = next_prefix capability (length payload) s in
      let prefix = pack q in
      let tag = tag_of hmac s s.send_direction s.key_epoch prefix payload in
      let n = length-pack q (next_prefix-Fits capability payload s r p c) in
      let m : length tag ≡ 32 =
        sized (direction_key hmac s.root_key s.transcript s.key_epoch s.send_direction)
          (prefix ++ payload) in
      let d = drop-append prefix_size prefix (tag ++ payload) n in
      (
        take-append prefix_size prefix (tag ++ payload) n,
        rw d (take-append 32 tag payload m),
        sym (drop-drop prefix_size 32 header_size (prefix ++ (tag ++ payload)) refl)
            ∙ (rw d (drop-append 32 tag payload m)),
        omega (arith, n, m, length-append prefix (tag ++ payload), length-append tag payload),
      )

  encode-frame_of :
      (capability : ℕ) (payload : Bytes) (s : Channel)
      → CanSend capability payload s
      → (encode hmac capability payload s).0 ≡ done (frame_of capability payload s)
  unfolding encode frame_of
  encode-frame_of capability payload s c =
      let short : ltb max_payload (length payload) ≡ false = ground (arith, c.short) in
      let small : leb (bound 8) s.key_epoch ≡ false = ground (arith, c.epoch) in
      let counted : leb (bound 8) (s.outbound_sequence + 1) ≡ false = ground (arith, c.sequence) in
      let known : leb (bound 8) capability ≡ false = ground (arith, c.capability) in
      rw (c.allowed, short, small, counted, known, c.keyed) refl

  check_frame-none :
      (frame : Bytes) (r : Channel)
      → ltb (length frame) header_size ≡ false
      → check_prefix (unpack (take prefix_size frame)) (length frame) r ≡ none
      → check_tag hmac (unpack (take prefix_size frame)) frame r ≡ none
      → check_frame hmac frame r ≡ none
  unfolding check_frame
  check_frame-none frame r n a b = rw (n, a, b) refl

  decode-done :
      (frame : Bytes) (r : Channel)
      → check_frame hmac frame r ≡ none
      → (decode hmac frame r).0 ≡ done (receipt_of frame)
  unfolding decode
  decode-done frame r e = rw (e, decode) refl

  peer-tag_of :
      (prefix payload : Bytes) (s r : Channel)
      → IsPeer s r
      → tag_of hmac r r.receive_direction s.key_epoch prefix payload
        ≡ tag_of hmac s s.send_direction s.key_epoch prefix payload
  unfolding tag_of
  peer-tag_of prefix payload s r p = rw (p.root_key, p.transcript, p.direction) refl

  peer-derivable :
      (s r : Channel)
      → IsPeer s r
      → derivable r.root_key r.transcript s.key_epoch r.receive_direction
        ≡ derivable s.root_key s.transcript s.key_epoch s.send_direction
  peer-derivable s r p = rw (p.root_key, p.transcript, p.direction) refl

  -- What is left of the tag's test once the frame is taken apart
  tag_matches :
      (q : Prefix) (prefix payload tag : Bytes) (frame : Bytes) (r : Channel)
      → derivable r.root_key r.transcript q.key_epoch r.receive_direction ≡ true
      → take prefix_size frame ≡ prefix
      → drop header_size frame ≡ payload
      → take 32 (drop prefix_size frame) ≡ tag
      → tag_of hmac r r.receive_direction q.key_epoch prefix payload ≡ tag
      → check_tag hmac q frame r ≡ none
  unfolding check_tag
  tag_matches q prefix payload tag frame r keyed t d tagged same =
      rw (keyed, tagged, t, d, same, bytes_eq_refl tag) refl

  -- A payload that a channel may send for a capability its peer allows too is put into a frame, which
  -- the peer, if it has accepted no sequence as great, accepts and reads back, with its capability,
  -- its sequence and its epoch.
  pub decode-encode :
      (capability : ℕ) (payload : Bytes) (s r : Channel)
      → ((k m : Bytes) → length (hmac k m) ≡ 32)
      → IsPeer s r
      → CanSend capability payload s
      → elem capability r.allowed ≡ true
      → r.inbound_sequence < s.outbound_sequence + 1
      → ((encode hmac capability payload s).0 ≡ done (frame_of capability payload s))
        × ((decode hmac (frame_of capability payload s) r).0
            ≡ done (record {
              key_epoch = s.key_epoch;
              sequence = s.outbound_sequence + 1;
              capability = capability;
              payload = payload;
            }))
  unfolding next_prefix
  decode-encode capability payload s r sized p c a i =
      let q = next_prefix capability (length payload) s in
      let (t, tagged, d, n) = frame_parts capability payload s r sized p c in
      let u : unpack (take prefix_size (frame_of capability payload s)) ≡ q =
        ap unpack t ∙ unpack-pack q (next_prefix-Fits capability payload s r p c) in
      let long : ltb (length (frame_of capability payload s)) header_size ≡ false =
        long_enough (frame_of capability payload s) (length payload) n in
      (
        encode-frame_of capability payload s c,
        decode-done (frame_of capability payload s) r (
              check_frame-none (frame_of capability payload s) r long
                (rw (u, n) (check_prefix_lem capability payload s r p c a i))
                (rw u (
                  tag_matches q (pack q) payload
                    (tag_of hmac s s.send_direction s.key_epoch (pack q) payload)
                    (frame_of capability payload s) r (peer-derivable s r p ∙ c.keyed) t d tagged
                    (peer-tag_of (pack q) payload s r p))))
            ∙ ap done (rw (u, d) refl),
      )
