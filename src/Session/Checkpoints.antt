-- ===== src/Session/Checkpoints.antt =====
-- `checkpoint` and `restore` of backend/session_channel.py. The JSON encoding of a checkpoint's facts is
-- the parameter `canonical`; a checkpoint whose fields have other types is not modelled.
use stageforge.Prelude.{
  ℕ, ◌<◌, ◌≡◌, refl, sym, ap, ◌==◌, leb, Bool, true, not, ◌&&◌, ◌||◌, List, [], ◌∷◌, if◌then◌else◌,
  Option, none, some, arith,
}
use stageforge.Prelude.Bytes.{Bytes, bytes_eq, bytes_eq_refl, bytes_eq_sound}
use stageforge.Session.Channel.{Channel, Receipt, done, decode, elem}
use stageforge.Session.Acceptance.{decode-Passed}
use stageforge.Session.Ordering.{Op, run, run-later}

-- The payload of a checkpoint
pub record Facts : Type 0 where
  pub session : Bytes
  pub transcript : Bytes
  pub key_epoch : ℕ
  pub previous_key_epoch : ℕ
  pub previous_accept_until : ℕ
  pub outbound_sequence : ℕ
  pub inbound_sequence : ℕ
  pub allowed : List ℕ

pub record Checkpoint : Type 0 where
  pub facts : Facts
  pub seal : Bytes

unfoldable pub put_sorted : ℕ → List ℕ → List ℕ
put_sorted n [] = n ∷ []
put_sorted n (x ∷ xs) = let rest = put_sorted n xs in if leb n x then n ∷ x ∷ xs else x ∷ rest

-- `sorted`
unfoldable pub sorted : List ℕ → List ℕ
unfolding put_sorted
sorted [] = []
sorted (x ∷ xs) = put_sorted x (sorted xs)

unfoldable pub subset : List ℕ → List ℕ → Bool
subset [] ys = true
subset (x ∷ xs) ys = elem x ys && subset xs ys

-- Equality of the sets that two lists spell
abbrev pub same_set : List ℕ → List ℕ → Bool
same_set xs ys = subset xs ys && subset ys xs

unfoldable pub facts_of : Channel → Facts
unfolding sorted
facts_of c = record {
  session = c.session;
  transcript = c.transcript;
  key_epoch = c.key_epoch;
  previous_key_epoch = c.previous_key_epoch;
  previous_accept_until = c.previous_accept_until;
  outbound_sequence = c.outbound_sequence;
  inbound_sequence = c.inbound_sequence;
  allowed = sorted c.allowed;
}

-- What `restore` assigns
abbrev pub take_up : Facts → Channel → Channel
take_up f c = record c {
  key_epoch = f.key_epoch;
  previous_key_epoch = f.previous_key_epoch;
  previous_accept_until = f.previous_accept_until;
  outbound_sequence = f.outbound_sequence;
  inbound_sequence = f.inbound_sequence;
}

elem-put_sorted : (m n : ℕ) (xs : List ℕ) → elem m (put_sorted n xs) ≡ (n == m || elem m xs)
unfolding put_sorted
elem-put_sorted m n [] = refl
elem-put_sorted m n (x ∷ xs) = ground (arith, elem-put_sorted m n xs)

elem-sorted : (m : ℕ) (xs : List ℕ) → elem m (sorted xs) ≡ elem m xs
unfolding sorted
elem-sorted m [] = refl
elem-sorted m (x ∷ xs) = ground (arith, elem-put_sorted m x (sorted xs), elem-sorted m xs)

subset-of : (xs ys : List ℕ) → ((m : ℕ) → elem m xs ≡ true → elem m ys ≡ true) → subset xs ys ≡ true
unfolding subset
subset-of [] ys h = refl
subset-of (x ∷ xs) ys h =
    let first : elem x ys ≡ true = h x (ground arith) in
    let rest = subset-of xs ys (λ m e. h m (ground arith)) in ground arith

same_set-sorted : (xs : List ℕ) → same_set (sorted xs) xs ≡ true
same_set-sorted xs =
    let a = subset-of (sorted xs) xs (λ m e. rw (← elem-sorted m xs) e) in
    let b = subset-of xs (sorted xs) (λ m e. rw (elem-sorted m xs) e) in ground arith

guards_passed :
    (a b d e : Bool) (x y : Channel)
    → (if not a then none else if not b || not d then none else if not e then none else some x)
      ≡ some y
    → (a ≡ true) × (b ≡ true) × (d ≡ true) × (e ≡ true) × (y ≡ x)
guards_passed a b d e x y h = ground arith

module _ (hmac : Bytes → Bytes → Bytes) (canonical : Facts → Bytes) where
  unfoldable pub checkpoint : Channel → Checkpoint
  unfolding facts_of
  checkpoint c = record { facts = facts_of c; seal = hmac c.root_key (canonical (facts_of c)) }

  -- `restore`; `none` is the `ValueError`
  unfoldable pub restore : Checkpoint → Channel → Option Channel
  restore p c =
      if not (bytes_eq (hmac c.root_key (canonical p.facts)) p.seal)
      then none
      else if not (bytes_eq p.facts.session c.session)
          || not (bytes_eq p.facts.transcript c.transcript)
      then none
      else if not (same_set p.facts.allowed c.allowed)
      then none
      else some (take_up p.facts c)

  -- A channel with the same key, identity and scope takes up a checkpoint of another, and has its
  -- epochs and sequences then.
  pub restore-checkpoint :
      (c fresh : Channel)
      → fresh.root_key ≡ c.root_key
      → fresh.session ≡ c.session
      → fresh.transcript ≡ c.transcript
      → fresh.allowed ≡ c.allowed
      → restore (checkpoint c) fresh ≡ some (take_up (facts_of c) fresh)
  unfolding restore checkpoint
  restore-checkpoint c fresh k s t a =
      rw
        (
          k,
          s,
          t,
          a,
          bytes_eq_refl (hmac c.root_key (canonical (facts_of c))),
          bytes_eq_refl c.session,
          bytes_eq_refl c.transcript,
          same_set-sorted c.allowed,
        )
        refl

  -- A checkpoint that is taken up is sealed under the channel's own key for its session and transcript.
  pub restore-IsSealed :
      (p : Checkpoint) (c c' : Channel)
      → restore p c ≡ some c'
      → (p.seal ≡ hmac c.root_key (canonical p.facts))
        × (p.facts.session ≡ c.session)
        × (p.facts.transcript ≡ c.transcript)
        × (same_set p.facts.allowed c.allowed ≡ true)
        × (c' ≡ take_up p.facts c)
  unfolding restore
  restore-IsSealed p c c' h =
      let (a, b, d, e, same) =
        guards_passed (bytes_eq (hmac c.root_key (canonical p.facts)) p.seal)
          (bytes_eq p.facts.session c.session) (bytes_eq p.facts.transcript c.transcript)
          (same_set p.facts.allowed c.allowed) (take_up p.facts c) c' h in
      (
        sym (bytes_eq_sound (hmac c.root_key (canonical p.facts)) p.seal a),
        bytes_eq_sound p.facts.session c.session b,
        bytes_eq_sound p.facts.transcript c.transcript d,
        e,
        same,
      )

  restored-inbound :
      (c fresh c' : Channel)
      → restore (checkpoint c) fresh ≡ some c'
      → c'.inbound_sequence ≡ c.inbound_sequence
  unfolding checkpoint
  restored-inbound c fresh c' h =
      let (_, _, _, _, same) = restore-IsSealed (checkpoint c) fresh c' h in
      ap (λ x. x.inbound_sequence) same

  -- A channel that is taken up from a checkpoint accepts no frame that the checkpointed one had
  -- accepted before, nor one that such a frame had overtaken.
  pub restart_keeps_order :
      (first second : Bytes) (before after : List Op) (c fresh c' : Channel) (r q : Receipt)
      → (decode hmac first c).0 ≡ done r
      → restore (checkpoint (run hmac before (decode hmac first c).1)) fresh ≡ some c'
      → (decode hmac second (run hmac after c')).0 ≡ done q
      → r.sequence < q.sequence
  restart_keeps_order first second before after c fresh c' r q h restored k =
      let c1 = (decode hmac first c).1 in
      let (_, _, at) = decode-Passed hmac first c r h in
      let (p', same', _) = decode-Passed hmac second (run hmac after c') q k in
      let l : (run hmac after c').inbound_sequence < q.sequence = rw same' p'.later in
      omega (
        arith,
        at,
        run-later hmac before c1,
        restored-inbound (run hmac before c1) fresh c' restored,
        run-later hmac after c',
        l,
      )
