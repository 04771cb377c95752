-- ===== src/Replication/Ordering.antt =====
-- The order of exports, and the order in which a standby applies them.
use stageforge.Prelude.{ℕ, ◌≤◌, ◌<◌, ◌≡◌, ◌⊎◌, arith, Option, none, some, List, [], ◌∷◌}
use stageforge.Prelude.Int.{ℤ, pos, ◌<ℤ◌, succ_ℤ, lt-succ_ℤ, max_ℤ, max_ℤ_lem}
use stageforge.Replication.Tracker.{
  Role, Tracker, Stamp, Position, become, promote_with_epoch, adopt_epoch, export, mark_applied,
}

-- The methods of a tracker that change it. An envelope is marked applied some time after `can_apply`
-- has accepted it, so that the tracker may be in any state by then.
pub data Op : Type 0 where
  role : Role → Op
  promote adopt : ℤ → Op
  mark : ℕ → Position → Op
  send : Op

abbrev sent : Option (Stamp × Tracker) → Tracker → Tracker
sent none t = t
sent (some (s, t')) t = t'

unfoldable pub perform : Op → Tracker → Tracker
perform (Op.role r) t = become r t
perform (Op.promote e) t = promote_with_epoch e t
perform (Op.adopt e) t = adopt_epoch e t
perform (Op.mark now p) t = mark_applied now p t
perform Op.send t = sent (export t) t

unfoldable pub run : List Op → Tracker → Tracker
run [] t = t
run (o ∷ os) t = run os (perform o t)

-- Epoch first, then sequence.
abbrev pub NotAfter : Tracker → Tracker → Type 0
NotAfter t u =
    (t.epoch <ℤ u.epoch) ⊎ ((t.epoch ≡ u.epoch) × (t.export_sequence ≤ u.export_sequence))

NotAfter-trans : (t u v : Tracker) → NotAfter t u → NotAfter u v → NotAfter t v
NotAfter-trans t u v h k = ground arith

perform-NotAfter : (o : Op) (t : Tracker) → NotAfter t (perform o t)
unfolding perform become promote_with_epoch adopt_epoch export mark_applied max_ℤ
perform-NotAfter (Op.role r) t = ground (arith, lt-succ_ℤ t.epoch)
perform-NotAfter (Op.promote e) t =
    ground (arith, lt-succ_ℤ t.epoch, max_ℤ_lem (succ_ℤ t.epoch) (max_ℤ (pos 1) e))
perform-NotAfter (Op.adopt e) t = ground arith
perform-NotAfter (Op.mark now p) t = ground arith
perform-NotAfter Op.send t = ground arith

run-NotAfter : (os : List Op) (t : Tracker) → NotAfter t (run os t)
unfolding run
run-NotAfter [] t = ground arith
run-NotAfter (o ∷ os) t =
    NotAfter-trans t (perform o t) (run os (perform o t)) (perform-NotAfter o t)
      (run-NotAfter os (perform o t))

-- Of two exports of a node, with any operations between them, the later has a greater epoch, or the
-- same epoch and a greater sequence: no two exports bear one stamp.
pub exports_increase :
    (os : List Op) (t u v : Tracker) (first second : Stamp)
    → export t ≡ some (first, u)
    → export (run os u) ≡ some (second, v)
    → (first.epoch <ℤ second.epoch)
      ⊎ ((first.epoch ≡ second.epoch) × (first.sequence < second.sequence))
unfolding export
exports_increase os t u v first second e e' = ground (arith, run-NotAfter os u)
