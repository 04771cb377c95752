-- ===== src/Replication/Receiver.antt =====
-- A standby that applies envelopes, `apply_replica` of backend/runtime.py, as far as its tracker is
-- concerned.
use stageforge.Prelude.{ℕ, zero, suc, ◌≡◌, String, Option, none, some, List, [], ◌∷◌}
use stageforge.Prelude.Int.{ℤ}
use stageforge.Replication.Tracker.{
  Role, Tracker, Header, Position, accepted, can_apply, read_header, mark_applied,
}
use stageforge.Replication.Ordering.{Op, perform}

-- A standby: its tracker, and the envelopes that `can_apply` has accepted and that are not marked
-- applied yet. `apply_replica` takes the tracker's lock twice, with the work of the application between.
pub record Receiver : Type 0 where
  pub tracker : Tracker
  pub checked : List Position

-- What may happen at a standby: an application begins with its check, or the one at a place among
-- those in progress is marked; the other events are the tracker's own operations.
pub data Event : Type 0 where
  begin : Header → Event
  finish : ℕ → ℕ → Event
  role : Role → Event
  promote adopt : ℤ → Event
  send : Event

unfoldable pub entry : ℕ → List Position → Option Position
entry i [] = none
entry zero (p ∷ ps) = some p
entry (suc i) (p ∷ ps) = entry i ps

unfoldable pub without : ℕ → List Position → List Position
without i [] = []
without zero (p ∷ ps) = ps
without (suc i) (p ∷ ps) = p ∷ without i ps

-- A refused envelope changes nothing.
unfoldable pub check_header : Header → Receiver → Receiver
check_header h s = elim (can_apply s.tracker h) [
  | accepted ↦ elim (read_header h) [ none ↦ s | some p ↦ record s { checked = p ∷ s.checked } ]
  | _ ↦ s
]

unfoldable pub finish_at : ℕ → ℕ → Receiver → Receiver
unfolding entry without
finish_at now i s = elim (entry i s.checked) [
  | none ↦ s
  | some p ↦ record { tracker = mark_applied now p s.tracker; checked = without i s.checked }
]

unfoldable pub react : Event → Receiver → Receiver
unfolding check_header finish_at perform
react (Event.begin h) s = check_header h s
react (Event.finish now i) s = finish_at now i s
react (Event.role r) s = record s { tracker = perform (Op.role r) s.tracker }
react (Event.promote e) s = record s { tracker = perform (Op.promote e) s.tracker }
react (Event.adopt e) s = record s { tracker = perform (Op.adopt e) s.tracker }
react Event.send s = record s { tracker = perform Op.send s.tracker }

unfoldable pub react_all : List Event → Receiver → Receiver
unfolding react
react_all [] s = s
react_all (e ∷ es) s = react_all es (react e s)

-- An envelope from `source`, as far as it can be read.
abbrev pub IsFrom : String → Header → Type 0
IsFrom source h = (p : Position) → read_header h ≡ some p → p.source ≡ source

-- An application that begins is of an envelope from `source`, and no other is in progress.
abbrev pub IsAlone : String → Event → Receiver → Type 0
IsAlone source (Event.begin h) s = IsFrom source h × (s.checked ≡ [])
IsAlone source _ s = Unit

-- It is so for every application that begins among some events.
unfoldable pub IsSerial : String → List Event → Receiver → Type 0
unfolding react
IsSerial source [] s = Unit
IsSerial source (e ∷ es) s = IsAlone source e s × IsSerial source es (react e s)
