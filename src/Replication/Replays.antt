-- ===== src/Replication/Replays.antt =====
-- What a standby refuses to apply again.
use stageforge.Prelude.{
  ℕ, ◌≡◌, ◌≢◌, refl, ◌⊎◌, inl, inr, zero, suc, str_eq_iff, arith, some, List, [], ◌∷◌, Option-cases,
}
use stageforge.Prelude.Int.{◌≤ℤ◌, eq_of_parts}
use stageforge.Replication.Tracker.{
  Tracker, Header, Position, Decision, accepted, become, promote_with_epoch, adopt_epoch, export,
  can_apply, can_follow, read_header, mark_applied,
}
use stageforge.Replication.Ordering.{Op, perform}
use stageforge.Replication.Receiver.{
  Receiver, Event, check_header, finish_at, react, react_all, IsFrom, IsAlone, IsSerial,
}

-- The tracker has applied `p`, or something that comes after it in the order of one source.
record IsPast (p : Position) (t : Tracker) : Type 0 where
  epoch : p.epoch ≤ℤ t.applied_epoch
  place :
      (p.epoch ≡ t.applied_epoch)
      → (t.source_node_id ≡ p.source) × (p.sequence ≤ℤ t.applied_sequence)

mark_applied-IsPast : (now : ℕ) (p : Position) (t : Tracker) → IsPast p (mark_applied now p t)
unfolding mark_applied
mark_applied-IsPast now p t = ground arith

follow-IsPast :
    (now : ℕ) (p q : Position) (t : Tracker)
    → q.source ≡ p.source
    → can_follow t q ≡ accepted
    → IsPast p t
    → IsPast p (mark_applied now q t)
unfolding mark_applied can_follow
follow-IsPast now p q t same ok past = record {
  epoch = ground (arith, past.epoch);
  place = λ e. (
    same,
    ground (
      arith,
      eq_of_parts p.epoch t.applied_epoch,
      str_eq_iff q.source t.source_node_id,
      past.epoch,
      past.place,
    ),
  );
}

-- A place that has been passed is refused.
IsPast-refused : (p : Position) (t : Tracker) → IsPast p t → can_follow t p ≢ accepted
unfolding can_follow
IsPast-refused p t past ok = ground (
  arith,
  eq_of_parts p.epoch t.applied_epoch,
  str_eq_iff p.source t.source_node_id,
  past.epoch,
  past.place,
)

is_accepted : (d : Decision) → (d ≡ accepted) ⊎ (d ≢ accepted)
is_accepted accepted = inl refl
is_accepted Decision.not_standby = inr (λ e. cc)
is_accepted Decision.malformed = inr (λ e. cc)
is_accepted Decision.stale_epoch = inr (λ e. cc)
is_accepted Decision.stale_sequence = inr (λ e. cc)
is_accepted Decision.revision_backwards = inr (λ e. cc)

can_apply-can_follow :
    (h : Header) (p : Position) (t : Tracker)
    → read_header h ≡ some p
    → can_apply t h ≡ accepted
    → can_follow t p ≡ accepted
unfolding can_apply
can_apply-can_follow h p t e ok = ground arith

-- A check changes nothing, or the envelope can be read and follows what was applied.
check_header-cases :
    (h : Header) (s : Receiver)
    → (check_header h s ≡ s)
      ⊎ ((q : Position) × (read_header h ≡ some q)
          × (can_follow s.tracker q ≡ accepted)
          × (check_header h s ≡ record s { checked = q ∷ s.checked }))
unfolding check_header
check_header-cases h s = elim (Option-cases (read_header h)) [
  | inl unread ↦ inl (ground arith)
  | inr (q, e) ↦ elim (is_accepted (can_apply s.tracker h)) [
    | inl ok ↦ inr (q, e, can_apply-can_follow h q s.tracker e ok, ground arith)
    | inr refused ↦ inl (ground arith)
  ]
]

-- `p` has been applied, and at most one application is in progress: of an envelope from `p`'s source that
-- follows what has been applied.
record IsBeyond (p : Position) (s : Receiver) : Type 0 where
  past : IsPast p s.tracker
  in_progress :
      (s.checked ≡ [])
      ⊎ ((q : Position) × (s.checked ≡ q ∷ [])
          × (q.source ≡ p.source)
          × (can_follow s.tracker q ≡ accepted))

-- Trackers that have applied the same
record SamePlace (t u : Tracker) : Type 0 where
  source : u.source_node_id ≡ t.source_node_id
  epoch : u.applied_epoch ≡ t.applied_epoch
  sequence : u.applied_sequence ≡ t.applied_sequence
  revision : u.applied_revision ≡ t.applied_revision

SamePlace-IsBeyond :
    (p : Position) (s : Receiver) (u : Tracker)
    → SamePlace s.tracker u
    → IsBeyond p s
    → IsBeyond p (record s { tracker = u })
unfolding can_follow
SamePlace-IsBeyond p s u e b =
    let past = b.past in
    record {
      past = record {
        epoch = rw e.epoch past.epoch;
        place = rw (e.epoch, e.source, e.sequence) past.place;
      };
      in_progress = rw (e.source, e.epoch, e.sequence, e.revision) b.in_progress;
    }

check_header-IsBeyond :
    (h : Header) (p : Position) (s : Receiver)
    → IsFrom p.source h
    → s.checked ≡ []
    → IsBeyond p s
    → IsBeyond p (check_header h s)
check_header-IsBeyond h p s from alone b = elim (check_header-cases h s) [
  | inl same ↦ rw same b
  | inr (q, e, ok, done) ↦
      rw done (record { past = b.past; in_progress = inr (q, rw alone refl, from q e, ok) })
]

-- With one application in progress, a mark is of that one, or there is none at its place.
finish_one :
    (now i : ℕ) (t : Tracker) (ps : List Position) (q : Position)
    → ps ≡ q ∷ []
    → let s : Receiver = record { tracker = t; checked = ps } in
      (finish_at now i s ≡ s)
      ⊎ (finish_at now i s ≡ record { tracker = mark_applied now q t; checked = [] })
unfolding finish_at
finish_one now zero t ps q e = rw e (inr refl)
finish_one now (suc i) t ps q e = rw e (inl refl)

finish_none :
    (now i : ℕ) (t : Tracker) (ps : List Position)
    → ps ≡ []
    → let s : Receiver = record { tracker = t; checked = ps } in finish_at now i s ≡ s
unfolding finish_at
finish_none now i t ps e = rw e refl

finish_at-IsBeyond :
    (now i : ℕ) (p : Position) (s : Receiver) → IsBeyond p s → IsBeyond p (finish_at now i s)
finish_at-IsBeyond now i p s b = elim b.in_progress [
  | inl empty ↦ rw (finish_none now i s.tracker s.checked empty) b
  | inr (q, one, same, ok) ↦ elim (finish_one now i s.tracker s.checked q one) [
    | inl kept ↦ rw kept b
    | inr done ↦
        rw done
          (record { past = follow-IsPast now p q s.tracker same ok b.past; in_progress = inl refl })
  ]
]

react-IsBeyond :
    (e : Event) (p : Position) (s : Receiver)
    → IsAlone p.source e s
    → IsBeyond p s
    → IsBeyond p (react e s)
unfolding react perform become promote_with_epoch adopt_epoch export
react-IsBeyond (Event.begin h) p s (from, alone) b = check_header-IsBeyond h p s from alone b
react-IsBeyond (Event.finish now i) p s a b = finish_at-IsBeyond now i p s b
react-IsBeyond (Event.role r) p s a b =
    SamePlace-IsBeyond p s (become r s.tracker)
      (record {
        source = ground arith;
        epoch = ground arith;
        sequence = ground arith;
        revision = ground arith;
      })
      b
react-IsBeyond (Event.promote e) p s a b =
    SamePlace-IsBeyond p s (promote_with_epoch e s.tracker)
      (record { source = refl; epoch = refl; sequence = refl; revision = refl }) b
react-IsBeyond (Event.adopt e) p s a b =
    SamePlace-IsBeyond p s (adopt_epoch e s.tracker)
      (record {
        source = ground arith;
        epoch = ground arith;
        sequence = ground arith;
        revision = ground arith;
      })
      b
react-IsBeyond Event.send p s a b =
    SamePlace-IsBeyond p s (perform Op.send s.tracker)
      (record {
        source = ground arith;
        epoch = ground arith;
        sequence = ground arith;
        revision = ground arith;
      })
      b

react_all-IsBeyond :
    (es : List Event) (p : Position) (s : Receiver)
    → IsSerial p.source es s
    → IsBeyond p s
    → IsBeyond p (react_all es s)
unfolding react_all IsSerial
react_all-IsBeyond [] p s a b = b
react_all-IsBeyond (e ∷ es) p s (a, rest) b =
    react_all-IsBeyond es p (react e s) rest (react-IsBeyond e p s a b)

finish_first :
    (now : ℕ) (t : Tracker) (ps : List Position) (q : Position)
    → ps ≡ q ∷ []
    → finish_at now 0 (record { tracker = t; checked = ps })
      ≡ record { tracker = mark_applied now q t; checked = [] }
unfolding finish_at
finish_first now t ps q e = rw e refl

finish_at-starts :
    (now : ℕ) (p : Position) (s : Receiver) → s.checked ≡ p ∷ [] → IsBeyond p (finish_at now 0 s)
finish_at-starts now p s one =
    rw (finish_first now s.tracker s.checked p one)
      (record { past = mark_applied-IsPast now p s.tracker; in_progress = inl refl })

-- An envelope whose application is marked while no other is in progress is not accepted again, after any
-- events among which all envelopes come from its own source and no application begins while another is
-- in progress.
pub replay_refused :
    (now : ℕ) (h : Header) (p : Position) (s : Receiver) (es : List Event)
    → read_header h ≡ some p
    → s.checked ≡ p ∷ []
    → IsSerial p.source es (finish_at now 0 s)
    → can_apply (react_all es (finish_at now 0 s)).tracker h ≢ accepted
replay_refused now h p s es e one serial again =
    let b = react_all-IsBeyond es p (finish_at now 0 s) serial (finish_at-starts now p s one) in
    let t = (react_all es (finish_at now 0 s)).tracker in
    IsPast-refused p t b.past (can_apply-can_follow h p t e again)
