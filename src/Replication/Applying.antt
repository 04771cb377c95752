-- ===== src/Replication/Applying.antt =====
-- That a promotion supersedes what a standby has applied.
use stageforge.Prelude.{ℕ, ◌≡◌, String, arith, some, List, [], ◌∷◌}
use stageforge.Prelude.Int.{ℤ, pos, ◌≤ℤ◌, succ_ℤ, lt-succ_ℤ, max_ℤ, max_ℤ_lem}
use stageforge.Replication.Tracker.{
  primary, standby, Tracker, Stamp, Header, Position, accepted, new_tracker, become,
  promote_with_epoch, adopt_epoch, export, can_apply, can_follow, mark_applied,
}
use stageforge.Replication.Ordering.{Op, perform, run}

-- A tracker's own epoch is no less than any that it has applied.
abbrev IsAhead : Tracker → Type 0
IsAhead t = t.applied_epoch ≤ℤ t.epoch

mark_applied-IsAhead : (now : ℕ) (p : Position) (t : Tracker) → IsAhead (mark_applied now p t)
unfolding mark_applied
mark_applied-IsAhead now p t = ground (arith, max_ℤ_lem t.epoch p.epoch)

perform-IsAhead : (o : Op) (t : Tracker) → IsAhead t → IsAhead (perform o t)
unfolding perform become promote_with_epoch adopt_epoch export
perform-IsAhead (Op.role r) t h = ground (arith, lt-succ_ℤ t.epoch)
perform-IsAhead (Op.promote e) t h =
    ground (arith, lt-succ_ℤ t.epoch, max_ℤ_lem (succ_ℤ t.epoch) (max_ℤ (pos 1) e))
perform-IsAhead (Op.adopt e) t h = ground arith
perform-IsAhead (Op.mark now p) t h = mark_applied-IsAhead now p t
perform-IsAhead Op.send t h = ground arith

run-IsAhead : (os : List Op) (t : Tracker) → IsAhead t → IsAhead (run os t)
unfolding run
run-IsAhead [] t h = h
run-IsAhead (o ∷ os) t h = run-IsAhead os (perform o t) (perform-IsAhead o t h)

new_tracker-IsAhead : (node text : String) → IsAhead (new_tracker node text)
unfolding new_tracker
new_tracker-IsAhead node text = omega arith

-- The header of an export that carries a revision.
abbrev pub header_of : Stamp → ℤ → Header
header_of s revision = record {
  source = some s.node;
  epoch = some s.epoch;
  sequence = some (pos s.sequence);
  revision = some revision;
}

-- When a standby with any history turns primary, every standby that has applied no later epoch than
-- it has accepts its first export, whatever source, sequence and revision that standby had reached.
pub promotion_supersedes :
    (node text : String) (os : List Op) (t u v : Tracker) (s : Stamp) (revision : ℤ)
    → t ≡ run os (new_tracker node text)
    → t.role ≡ standby
    → export (become primary t) ≡ some (s, v)
    → u.role ≡ standby
    → u.applied_epoch ≤ℤ t.applied_epoch
    → can_apply u (header_of s revision) ≡ accepted
unfolding export become can_apply can_follow
promotion_supersedes node text os t u v s revision reached rt e ru behind =
    let ahead : IsAhead t =
      rw reached (run-IsAhead os (new_tracker node text) (new_tracker-IsAhead node text)) in
    ground (arith, lt-succ_ℤ t.epoch)
