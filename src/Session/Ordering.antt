-- ===== src/Session/Ordering.antt =====
-- What a channel accepts over time: any frames are received, any payloads sent and the key rotated, in
-- any order. The channel is not set back to an earlier checkpoint (`restore`) in between: that would
-- admit again what was accepted since the checkpoint.
use stageforge.Prelude.{
  ℕ, ◌+◌, ◌<◌, ◌≤◌, ◌≡◌, refl, Option-cases, ◌⊎◌, inl, inr, List, [], ◌∷◌, Option, none, some,
  arith,
}
use stageforge.Prelude.Bytes.{Bytes}
use stageforge.Session.Acceptance.{decode-Passed, decode_failed, decode_done, check_frame-Passed}
use stageforge.Session.Channel.{Channel, Receipt, done, encode, decode, check_frame, rotate}

pub data Op : Type 0 where
  send : (capability : ℕ) (payload : Bytes) → Op
  receive : (frame : Bytes) → Op
  turn : (epoch : ℕ) → Op

-- A rotation that is refused changes nothing.
abbrev turned : Option Channel → Channel → Channel
turned none c = c
turned (some c') c = c'

module _ (hmac : Bytes → Bytes → Bytes) where
  unfoldable pub perform : Op → Channel → Channel
  perform (send capability payload) c = (encode hmac capability payload c).1
  perform (receive frame) c = (decode hmac frame c).1
  perform (turn epoch) c = turned (rotate epoch c) c

  unfoldable pub run : List Op → Channel → Channel
  unfolding perform
  run [] c = c
  run (o ∷ os) c = run os (perform o c)

  -- Nothing that decides over acceptance moves when a payload is sent.
  encode-keeps :
      (capability : ℕ) (payload : Bytes) (c : Channel)
      → ((encode hmac capability payload c).1.inbound_sequence ≡ c.inbound_sequence)
        × ((encode hmac capability payload c).1.key_epoch ≡ c.key_epoch)
        × ((encode hmac capability payload c).1.previous_key_epoch ≡ c.previous_key_epoch)
        × ((encode hmac capability payload c).1.previous_accept_until ≡ c.previous_accept_until)
  unfolding encode
  encode-keeps capability payload c = ground arith

  decode-keeps :
      (frame : Bytes) (c : Channel)
      → (c.inbound_sequence ≤ (decode hmac frame c).1.inbound_sequence)
        × ((decode hmac frame c).1.key_epoch ≡ c.key_epoch)
        × ((decode hmac frame c).1.previous_key_epoch ≡ c.previous_key_epoch)
        × ((decode hmac frame c).1.previous_accept_until ≡ c.previous_accept_until)
  decode-keeps frame c = elim (Option-cases (check_frame hmac frame c)) [
    | inl passed ↦
        let p = check_frame-Passed hmac frame c passed in
        rw (decode_done hmac frame c passed) (omega (arith, p.later), refl, refl, refl)
    | inr (e, bad) ↦ rw (decode_failed hmac frame c e bad) (omega arith, refl, refl, refl)
  ]

  turned-keeps :
      (epoch : ℕ) (c : Channel) → (turned (rotate epoch c) c).inbound_sequence ≡ c.inbound_sequence
  unfolding rotate
  turned-keeps epoch c = ground arith

  perform-later : (o : Op) (c : Channel) → c.inbound_sequence ≤ (perform o c).inbound_sequence
  unfolding perform
  perform-later (send capability payload) c = omega (arith, encode-keeps capability payload c)
  perform-later (receive frame) c = omega (arith, decode-keeps frame c)
  perform-later (turn epoch) c = omega (arith, turned-keeps epoch c)

  pub run-later : (os : List Op) (c : Channel) → c.inbound_sequence ≤ (run os c).inbound_sequence
  unfolding run
  run-later [] c = omega arith
  run-later (o ∷ os) c = omega (arith, perform-later o c, run-later os (perform o c))

  -- Of two frames that a channel accepts, with any frames received, payloads sent and rotations between
  -- them, and no restoring of a checkpoint, the later has the greater sequence.
  pub sequences_increase :
      (first second : Bytes) (between : List Op) (c : Channel) (r q : Receipt)
      → (decode hmac first c).0 ≡ done r
      → (decode hmac second (run between (decode hmac first c).1)).0 ≡ done q
      → r.sequence < q.sequence
  sequences_increase first second between c r q h k =
      let c' = (decode hmac first c).1 in
      let (p, same, at) = decode-Passed hmac first c r h in
      let (p', same', at') = decode-Passed hmac second (run between c') q k in
      let l : (run between c').inbound_sequence < q.sequence = rw same' p'.later in
      omega (arith, at, run-later between c', l)

  -- The epochs that a channel still accepts after a rotation to `new` when it had reached `seen`
  record Retired (old new until : ℕ) (c : Channel) : Type 0 where
    current : new ≤ c.key_epoch
    previous :
        (new ≤ c.previous_key_epoch)
        ⊎ ((c.previous_key_epoch ≡ old) × (c.previous_accept_until ≡ until))

  turned-Retired :
      (old new until epoch : ℕ) (c : Channel)
      → Retired old new until c
      → Retired old new until (turned (rotate epoch c) c)
  unfolding rotate
  turned-Retired old new until epoch c r =
      let a = r.current in
      let b = r.previous in record { current = ground arith; previous = ground arith }

  rotate-Retired :
      (epoch : ℕ) (c c' : Channel)
      → rotate epoch c ≡ some c'
      → Retired c.key_epoch epoch (c.inbound_sequence + c.rotation_grace) c'
  unfolding rotate
  rotate-Retired epoch c c' h = record { current = ground arith; previous = ground arith }

  perform-Retired :
      (old new until : ℕ) (o : Op) (c : Channel)
      → Retired old new until c
      → Retired old new until (perform o c)
  unfolding perform
  perform-Retired old new until (send capability payload) c r =
      let (_, a, b, d) = encode-keeps capability payload c in
      record { current = rw a r.current; previous = rw (b, d) r.previous }
  perform-Retired old new until (receive frame) c r =
      let (_, a, b, d) = decode-keeps frame c in
      record { current = rw a r.current; previous = rw (b, d) r.previous }
  perform-Retired old new until (turn epoch) c r = turned-Retired old new until epoch c r

  run-Retired :
      (old new until : ℕ) (os : List Op) (c : Channel)
      → Retired old new until c
      → Retired old new until (run os c)
  unfolding run
  run-Retired old new until [] c r = r
  run-Retired old new until (o ∷ os) c r =
      run-Retired old new until os (perform o c) (perform-Retired old new until o c r)

  -- After a rotation, and any frames received, payloads sent and rotations that follow it, with no
  -- restoring of a checkpoint, a frame that is accepted bears the new epoch or a later one, or the
  -- epoch before the rotation and a sequence within the grace from what had been reached.
  pub rotation_retires :
      (frame : Bytes) (epoch : ℕ) (os : List Op) (c c' : Channel) (r : Receipt)
      → rotate epoch c ≡ some c'
      → (decode hmac frame (run os c')).0 ≡ done r
      → (epoch ≤ r.key_epoch)
        ⊎ ((r.key_epoch ≡ c.key_epoch) × (r.sequence ≤ c.inbound_sequence + c.rotation_grace))
  rotation_retires frame epoch os c c' r h k =
      let (p, same, at) = decode-Passed hmac frame (run os c') r k in
      let start = rotate-Retired epoch c c' h in
      let q = run-Retired c.key_epoch epoch (c.inbound_sequence + c.rotation_grace) os c' start in
      let current = q.current in
      let previous = q.previous in let e = p.epoch in rw same (ground arith)
