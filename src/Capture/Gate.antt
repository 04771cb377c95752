-- ===== src/Capture/Gate.antt =====
-- `PunchCaptureGate` of backend/punch_capture.py: which frames of each captured block are kept. Frame
-- numbers that the constructor accepts are naturals, and so are a block's frame count and generation;
-- its `showFrame` may be negative. Wherever the source writes `max(0, a - b)`, `-` on the naturals
-- does.
use stageforge.Prelude.{
  ℕ, zero, suc, ◌+◌, ◌-◌, ◌*◌, ◌/◌, min, max, ◌==◌, leb, ltb, not, Bool, true, false, ◌||◌,
  if◌then◌else◌, Option, none, some, List, [], ◌∷◌,
}
use stageforge.Prelude.Int.{ℤ, pos, pos_part, ltb_ℤ}

abbrev pub max_pre_roll_frames : ℕ
max_pre_roll_frames = 65536

abbrev pub max_loop_passes : ℕ
max_loop_passes = 128

pub record CaptureSlice : Type 0 where
  pub offset : ℕ
  pub frames : ℕ
  pub corrected_start_frame : ℕ
  pub loop_pass : ℕ

-- The loop range, if there is one: the two ends are given together or not at all.
pub record LoopRange : Type 0 where
  pub start : ℕ
  pub end : ℕ

pub record Gate : Type 0 where
  pub generation : ℕ
  pub punch_in : ℕ
  pub pre_roll : ℕ
  pub latency : ℕ
  pub loop : Option LoopRange
  pub maximum_passes : ℕ
  pub capture_start : ℕ
  pub capture_end : Option ℕ
  pub selected_frames : ℕ
  pub discarded_frames : ℕ
  pub stale_blocks : ℕ
  pub loop_passes : List ℕ
  pub complete : Bool

-- The constructor's arguments.
pub record Plan : Type 0 where
  pub generation : ℤ
  pub punch_in_frame : ℤ
  pub punch_out_frame : Option ℤ
  pub pre_roll_frames : ℤ
  pub latency_frames : ℤ
  pub loop_start_frame : Option ℤ
  pub loop_end_frame : Option ℤ
  pub maximum_passes : ℤ

-- `a < 0`
abbrev is_negative : ℤ → Bool
is_negative a = ltb_ℤ a (pos 0)

-- `punch_out_frame is not None and punch_out_frame <= punch_in_frame`
abbrev bad_out : ℤ → Option ℤ → Bool
bad_out a none = false
bad_out a (some b) = not (ltb_ℤ a b)

-- The loop range; `none` is the `ValueError`.
unfoldable pub loop_range : Option ℤ → Option ℤ → Option (Option LoopRange)
loop_range none none = some none
loop_range none (some e) = none
loop_range (some s) none = none
loop_range (some s) (some e) =
    if is_negative s || not (ltb_ℤ s e)
    then none
    else some (some (record { start = pos_part s; end = pos_part e }))

unfoldable pub end_of : Option LoopRange → Option ℤ → ℕ → Option ℕ
end_of none none passes = none
end_of none (some out) passes = some (pos_part out)
end_of (some l) out passes = some (l.start + (l.end - l.start) * passes)

-- The constructor past the loop range's test
unfoldable pub open_gate : Plan → Option LoopRange → Option Gate
unfolding end_of
open_gate p loop =
    if ltb_ℤ p.maximum_passes (pos 1) || ltb_ℤ (pos max_loop_passes) p.maximum_passes
    then none
    else some (record {
      generation = pos_part p.generation;
      punch_in = pos_part p.punch_in_frame;
      pre_roll = pos_part p.pre_roll_frames;
      latency = pos_part p.latency_frames;
      loop = loop;
      maximum_passes = pos_part p.maximum_passes;
      capture_start = pos_part p.punch_in_frame - pos_part p.pre_roll_frames;
      capture_end = end_of loop p.punch_out_frame (pos_part p.maximum_passes);
      selected_frames = 0;
      discarded_frames = 0;
      stale_blocks = 0;
      loop_passes = [];
      complete = false;
    })

-- `__init__`; `none` is a `ValueError`
unfoldable pub new_gate : Plan → Option Gate
unfolding open_gate loop_range
new_gate p =
    if ltb_ℤ p.generation (pos 1)
    then none
    else if is_negative p.pre_roll_frames || ltb_ℤ (pos max_pre_roll_frames) p.pre_roll_frames
    then none
    else if is_negative p.latency_frames || ltb_ℤ (pos max_pre_roll_frames) p.latency_frames
    then none
    else if is_negative p.punch_in_frame || bad_out p.punch_in_frame p.punch_out_frame
    then none
    else elim (loop_range p.loop_start_frame p.loop_end_frame) [
      | none ↦ none
      | some l ↦ open_gate p l
    ]

-- A captured block; `generation` is `none` where the block names none.
pub record Block : Type 0 where
  pub generation : Option ℕ
  pub frames : ℕ
  pub show_frame : ℤ

-- The pass of the loop that `cursor` lies in, and the frame at which the slice that begins there ends.
unfoldable pub cut : Option LoopRange → ℕ → ℕ → ℕ × ℕ
cut none cursor finish = (0, finish)
cut (some l) cursor finish =
    if ltb cursor l.start
    then (0, min finish l.start)
    else let length = l.end - l.start in
      let pass = (cursor - l.start) / length in (pass, min finish (l.start + (pass + 1) * length))

-- `self.loop_passes.add(loop_pass)`, where the cursor is in the loop
abbrev has_pass : ℕ → List ℕ → Bool
has_pass n [] = false
has_pass n (x ∷ xs) = x == n || has_pass n xs

unfoldable pub add_pass : Option LoopRange → ℕ → ℕ → List ℕ → List ℕ
add_pass none cursor pass seen = seen
add_pass (some l) cursor pass seen =
    if ltb cursor l.start || has_pass pass seen then seen else pass ∷ seen

-- The `while` loop of `select`. A slice has at least one frame, so `finish - cursor` rounds are enough.
unfoldable pub slices : ℕ → Option LoopRange → ℕ → ℕ → ℕ → List CaptureSlice
unfolding cut
slices zero loop start cursor finish = []
slices (suc fuel) loop start cursor finish = elim (ltb cursor finish) [
  | false ↦ []
  | true ↦
      let (pass, boundary) = cut loop cursor finish in
      record {
        offset = cursor - start;
        frames = boundary - cursor;
        corrected_start_frame = cursor;
        loop_pass = pass;
      }
      ∷ slices fuel loop start boundary finish
]

-- The passes that the same loop notes
unfoldable pub passes : ℕ → Option LoopRange → ℕ → ℕ → List ℕ → List ℕ
unfolding cut add_pass
passes zero loop cursor finish seen = seen
passes (suc fuel) loop cursor finish seen = elim (ltb cursor finish) [
  | false ↦ seen
  | true ↦
      let (pass, boundary) = cut loop cursor finish in
      passes fuel loop boundary finish (add_pass loop cursor pass seen)
]

-- `max(0, raw_start - latency)`, of a start that may be negative
unfoldable pub start_of : ℤ → ℕ → ℕ
start_of raw latency = pos_part raw - latency

unfoldable pub reached_end : Option ℕ → ℕ → Bool
reached_end none end = false
reached_end (some e) end = leb e end

abbrev pub window_end : Option ℕ → ℕ → ℕ
window_end none end = end
window_end (some e) end = e

abbrev pub total_frames : List CaptureSlice → ℕ
total_frames [] = 0
total_frames (x ∷ xs) = x.frames + total_frames xs

-- The rest of `select`, over the window that is to be kept
unfoldable pub select_window : ℕ → ℕ → ℕ → ℕ → Gate → List CaptureSlice × Gate
unfolding slices passes reached_end
select_window frames start begin finish g =
    let taken = slices (finish - begin) g.loop start begin finish in
    (
      taken,
      record g {
        loop_passes = passes (finish - begin) g.loop begin finish g.loop_passes;
        selected_frames = g.selected_frames + total_frames taken;
        discarded_frames = g.discarded_frames + (frames - total_frames taken);
        complete = reached_end g.capture_end (start + frames);
      },
    )

abbrev pub is_current : Option ℕ → ℕ → Bool
is_current none g = true
is_current (some n) g = n == g

-- `select`
unfoldable pub select : Block → Gate → List CaptureSlice × Gate
unfolding select_window start_of
select b g =
    if not (is_current b.generation g.generation)
    then ([], record g { stale_blocks = g.stale_blocks + 1 })
    else let start = start_of b.show_frame g.latency in
      let end = start + b.frames in
      let begin = max start g.capture_start in
      let finish = min end (window_end g.capture_end end) in
      if leb finish begin
      then (
        [],
        record g {
          discarded_frames = g.discarded_frames + b.frames;
          complete = reached_end g.capture_end end;
        },
      )
      else select_window b.frames start begin finish g
