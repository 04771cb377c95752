-- ===== src/Session/Acceptance.antt =====
-- What a channel demands of a frame that it accepts.
use stageforge.Prelude.{
  ℕ, ◌+◌, ◌<◌, ◌≤◌, ◌≡◌, refl, sym, ap, ltb, Bool, Option-cases, true, false, not, ◌⊎◌, ◌≢◌,
  if◌then◌else◌, inl, inr, length, take, drop, ◌∙◌, Option, none, some, arith,
}
use stageforge.Prelude.Bytes.{Bytes, bytes_eq, bytes_eq_sound}
use stageforge.Session.Channel.{
  Channel, Prefix, Receipt, FrameError, truncated, bad_key, bad_tag, done, failed, unpack, decode,
  check_frame, check_prefix, check_tag, tag_of, receipt_of, elem, derivable, magic, header_size,
  prefix_size, max_payload,
}

both_none :
    (short : Bool) (x y : Option FrameError)
    → (if short then some truncated else elim x [ some e ↦ some e | none ↦ y ]) ≡ none
    → (x ≡ none) × (y ≡ none)
both_none true x y h = absurd (cc)
both_none false none y h = (refl, h)
both_none false (some e) y h = absurd (cc)

last_passed :
    (a b : Bool) (e f : FrameError)
    → (if not a then some e else if not b then some f else none) ≡ none
    → b ≡ true
last_passed false b e f h = absurd (cc)
last_passed true false e f h = absurd (cc)
last_passed true true e f h = refl

done_of : {r s : Receipt} → done r ≡ done s → r ≡ s
done_of h = cc

done_apart : (e : FrameError) (r : Receipt) → failed e ≢ done r
done_apart e r h = absurd (cc)

check_prefix-none :
    (p : Prefix) (n : ℕ) (c : Channel)
    → check_prefix p n c ≡ none
    → (p.magic_bytes ≡ magic)
      × (p.version ≡ 1)
      × (p.flags ≡ 0)
      × (p.header ≡ header_size)
      × (p.session ≡ c.session)
      × (p.size ≤ max_payload)
      × (n ≡ header_size + p.size)
      × (elem p.capability c.allowed ≡ true)
      × (c.inbound_sequence < p.sequence)
      × ((p.key_epoch ≡ c.key_epoch)
          ⊎ ((p.key_epoch ≡ c.previous_key_epoch) × (p.sequence ≤ c.previous_accept_until)))
unfolding check_prefix
check_prefix-none p n c h = (
  bytes_eq_sound p.magic_bytes magic (ground arith),
  ground arith,
  ground arith,
  ground arith,
  bytes_eq_sound p.session c.session (ground arith),
  ground arith,
  ground arith,
  ground arith,
  ground arith,
  ground arith,
)

module _ (hmac : Bytes → Bytes → Bytes) where
  pub decode_failed :
      (frame : Bytes) (c : Channel) (e : FrameError)
      → check_frame hmac frame c ≡ some e
      → decode hmac frame c ≡ (failed e, record c { rejected = c.rejected + 1 })
  unfolding decode
  decode_failed frame c e h = rw (h, decode) refl

  pub decode_done :
      (frame : Bytes) (c : Channel)
      → check_frame hmac frame c ≡ none
      → decode hmac frame c ≡ (
        done (receipt_of frame),
        record c { inbound_sequence = (receipt_of frame).sequence; accepted = c.accepted + 1 },
      )
  unfolding decode
  decode_done frame c h = rw (h, decode) refl

  -- What a frame has passed that is not refused.
  pub record Passed (frame : Bytes) (c : Channel) : Type 0 where
    pub sized : length frame ≡ header_size + (unpack (take prefix_size frame)).size
    pub short : (unpack (take prefix_size frame)).size ≤ max_payload
    pub magic : (unpack (take prefix_size frame)).magic_bytes ≡ magic
    pub version : (unpack (take prefix_size frame)).version ≡ 1
    pub flags : (unpack (take prefix_size frame)).flags ≡ 0
    pub header : (unpack (take prefix_size frame)).header ≡ header_size
    pub session : (unpack (take prefix_size frame)).session ≡ c.session
    pub allowed : elem (receipt_of frame).capability c.allowed ≡ true
    pub later : c.inbound_sequence < (receipt_of frame).sequence
    pub epoch :
        ((receipt_of frame).key_epoch ≡ c.key_epoch)
        ⊎ (((receipt_of frame).key_epoch ≡ c.previous_key_epoch)
            × ((receipt_of frame).sequence ≤ c.previous_accept_until))
    pub tag :
        take 32 (drop prefix_size frame)
        ≡ tag_of hmac c c.receive_direction
            (receipt_of frame).key_epoch
            (take prefix_size frame)
            (receipt_of frame).payload

  check_frame-parts :
      (frame : Bytes) (c : Channel)
      → check_frame hmac frame c ≡ none
      → (check_prefix (unpack (take prefix_size frame)) (length frame) c ≡ none)
        × (check_tag hmac (unpack (take prefix_size frame)) frame c ≡ none)
  unfolding check_frame
  check_frame-parts frame c h =
      both_none (ltb (length frame) header_size)
        (check_prefix (unpack (take prefix_size frame)) (length frame) c)
        (check_tag hmac (unpack (take prefix_size frame)) frame c) h

  check_tag-none :
      (p : Prefix) (frame : Bytes) (c : Channel)
      → check_tag hmac p frame c ≡ none
      → take 32 (drop prefix_size frame)
        ≡ tag_of hmac c c.receive_direction p.key_epoch
            (take prefix_size frame)
            (drop header_size frame)
  unfolding check_tag
  check_tag-none p frame c h =
      bytes_eq_sound (take 32 (drop prefix_size frame))
        (tag_of hmac c c.receive_direction p.key_epoch (take prefix_size frame)
          (drop header_size frame))
        (last_passed (derivable c.root_key c.transcript p.key_epoch c.receive_direction)
          (bytes_eq (take 32 (drop prefix_size frame)) (
            tag_of hmac c c.receive_direction p.key_epoch (take prefix_size frame)
              (drop header_size frame)))
          bad_key bad_tag h)

  pub check_frame-Passed :
      (frame : Bytes) (c : Channel) → check_frame hmac frame c ≡ none → Passed frame c
  check_frame-Passed frame c h =
      let p = unpack (take prefix_size frame) in
      let (a, b) = check_frame-parts frame c h in
      let (m, v, f, d, s, z, n, k, l, e) = check_prefix-none p (length frame) c a in
      record {
        sized = n;
        short = z;
        magic = m;
        version = v;
        flags = f;
        header = d;
        session = s;
        allowed = k;
        later = l;
        epoch = e;
        tag = check_tag-none p frame c b;
      }

  -- A frame that is accepted is spelled for this channel: it has the magic bytes, version 1, no flags
  -- and the header's size, the channel's session, a length that is the header's and the payload's, the
  -- payload within its bound, a capability that the channel allows, a sequence greater than the last
  -- one accepted, the current epoch or the one before it within the grace of its rotation, and the tag
  -- of its bytes under that epoch's key; its sequence is then the channel's last.
  pub decode-Passed :
      (frame : Bytes) (c : Channel) (r : Receipt)
      → (decode hmac frame c).0 ≡ done r
      → Passed frame c
        × (r ≡ receipt_of frame)
        × ((decode hmac frame c).1.inbound_sequence ≡ r.sequence)
  decode-Passed frame c r h = elim (Option-cases (check_frame hmac frame c)) [
    | inl passed ↦
        let d = decode_done frame c passed in
        let same : r ≡ receipt_of frame = done_of (sym h ∙ ap (λ x. x.0) d) in
        (check_frame-Passed frame c passed, same, rw (d, same) refl)
    | inr (e, bad) ↦ absurd (done_apart e r (sym (ap (λ x. x.0) (decode_failed frame c e bad)) ∙ h))
  ]
