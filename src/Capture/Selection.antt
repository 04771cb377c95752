-- ===== src/Capture/Selection.antt =====
-- What the gate keeps of a block, and its counters.
use stageforge.Prelude.{
  ℕ, ◌+◌, ◌-◌, ◌*◌, ◌≤◌, ◌<◌, ◌≡◌, refl, min, max, leb, true, false, ◌⊎◌, inl, inr, Bool-cases,
  Option-cases, if◌then◌else◌, Option, none, some, [], arith, All,
}
use stageforge.Prelude.Int.{ℤ}
use stageforge.Capture.Gate.{
  LoopRange, Gate, Plan, Block, new_gate, loop_range, slices, total_frames, select, select_window,
  start_of, reached_end, is_current, window_end, max_pre_roll_frames, max_loop_passes,
}
use stageforge.Capture.Slicing.{IsLoop, Tile, IsInPass, slices-Tile, slices-IsInPass, total-Tile}

pub record IsValid (g : Gate) : Type 0 where
  pub loop : IsLoop g.loop
  pub started : g.capture_start ≤ g.punch_in
  pub generated : 0 < g.generation
  pub rolled : g.pre_roll ≤ max_pre_roll_frames
  pub delayed : g.latency ≤ max_pre_roll_frames
  pub passed : (0 < g.maximum_passes) × (g.maximum_passes ≤ max_loop_passes)
  pub ended :
      (l : LoopRange)
      → g.loop ≡ some l
      → g.capture_end ≡ some (l.start + (l.end - l.start) * g.maximum_passes)
  pub counted : (g.selected_frames ≡ 0) × (g.discarded_frames ≡ 0) × (g.stale_blocks ≡ 0)

loop_range-IsLoop : (s e : Option ℤ) (l : Option LoopRange) → loop_range s e ≡ some l → IsLoop l
unfolding loop_range
loop_range-IsLoop none none none h = tt
loop_range-IsLoop none none (some l) h = cc
loop_range-IsLoop none (some e) l h = cc
loop_range-IsLoop (some s) none l h = cc
loop_range-IsLoop (some s) (some e) none h = tt
loop_range-IsLoop (some s) (some e) (some l) h = ground arith

-- A gate that is constructed is within the bounds, with no frame counted yet.
pub new_gate-IsValid : (p : Plan) (g : Gate) → new_gate p ≡ some g → IsValid g
unfolding new_gate
new_gate-IsValid p g h = elim (Option-cases (loop_range p.loop_start_frame p.loop_end_frame)) [
  | inl bad ↦ absurd (ground arith)
  | inr (l, e) ↦
      let same : l ≡ g.loop = ground arith in
      record {
        loop = rw (← same) (loop_range-IsLoop p.loop_start_frame p.loop_end_frame l e);
        started = ground arith;
        generated = ground arith;
        rolled = ground arith;
        delayed = ground arith;
        passed = ground arith;
        ended = λ r i. ground arith;
        counted = ground arith;
      }
]

-- The part of a block that lies in the capture window: where it begins and ends.
abbrev pub block_start : Block → Gate → ℕ
block_start b g = start_of b.show_frame g.latency

abbrev pub kept_from : Block → Gate → ℕ
kept_from b g = max (block_start b g) g.capture_start

abbrev pub kept_to : Block → Gate → ℕ
kept_to b g =
    min (block_start b g + b.frames) (window_end g.capture_end (block_start b g + b.frames))

select_stale :
    (b : Block) (g : Gate)
    → is_current b.generation g.generation ≡ false
    → select b g ≡ ([], record g { stale_blocks = g.stale_blocks + 1 })
unfolding select
select_stale b g e = rw e refl

select_misses :
    (b : Block) (g : Gate)
    → is_current b.generation g.generation ≡ true
    → leb (kept_to b g) (kept_from b g) ≡ true
    → select b g ≡ (
      [],
      record g {
        discarded_frames = g.discarded_frames + b.frames;
        complete = reached_end g.capture_end (block_start b g + b.frames);
      },
    )
unfolding select
select_misses b g e m = rw (e, m) refl

select_meets :
    (b : Block) (g : Gate)
    → is_current b.generation g.generation ≡ true
    → leb (kept_to b g) (kept_from b g) ≡ false
    → select b g ≡ select_window b.frames (block_start b g) (kept_from b g) (kept_to b g) g
unfolding select
select_meets b g e m = rw (e, m) refl

taken-Tile :
    (b : Block) (g : Gate)
    → IsLoop g.loop
    → leb (kept_to b g) (kept_from b g) ≡ false
    → Tile (block_start b g) (kept_from b g) (kept_to b g) (
        slices (kept_to b g - kept_from b g) g.loop (block_start b g) (kept_from b g) (kept_to b g))
taken-Tile b g h m =
    slices-Tile (kept_to b g - kept_from b g) g.loop (block_start b g) (kept_from b g) (kept_to b g)
      h (omega arith) (ground arith) (omega arith)

-- Of a block of the gate's own generation, the slices are exactly the frames of the block that lie in
-- the capture window, one behind another with none left out, each in its place in the block and in
-- the pass of the loop that it is marked with; where the block misses the window, none is kept.
pub select_lem :
    (b : Block) (g : Gate)
    → IsLoop g.loop
    → is_current b.generation g.generation ≡ true
    → (((kept_to b g ≤ kept_from b g) × ((select b g).0 ≡ []))
        ⊎ ((kept_from b g < kept_to b g)
            × Tile (block_start b g) (kept_from b g) (kept_to b g) (select b g).0))
      × All (IsInPass g.loop) (select b g).0
unfolding select_window
select_lem b g h current = elim (Bool-cases (leb (kept_to b g) (kept_from b g))) [
  | inl misses ↦ rw (select_misses b g current misses) (inl (ground arith, refl), tt)
  | inr meets ↦ rw (select_meets b g current meets) (
    inr (ground arith, taken-Tile b g h meets),
    slices-IsInPass (kept_to b g - kept_from b g) g.loop (block_start b g) (kept_from b g)
        (kept_to b g) h,
  )
]

-- Every frame of a block of the gate's own generation is counted once, as selected or as discarded, and
-- as many are counted as selected as the slices hold. A block of another generation counts as stale
-- alone.
pub select_counts :
    (b : Block) (g : Gate)
    → IsLoop g.loop
    → ((select b g).1.selected_frames ≡ g.selected_frames + total_frames (select b g).0)
      × ((select b g).1.selected_frames + (select b g).1.discarded_frames
          ≡ g.selected_frames
            + g.discarded_frames
            + (if is_current b.generation g.generation then b.frames else 0))
      × ((select b g).1.stale_blocks
          ≡ g.stale_blocks + (if is_current b.generation g.generation then 0 else 1))
unfolding select_window
select_counts b g h = elim (Bool-cases (is_current b.generation g.generation)) [
  | inr stale ↦ rw (select_stale b g stale, stale) (omega arith, omega arith, refl)
  | inl current ↦ elim (Bool-cases (leb (kept_to b g) (kept_from b g))) [
    | inl misses ↦
        rw (select_misses b g current misses, current) (omega arith, omega arith, omega arith)
    | inr meets ↦
        let total =
          total-Tile (block_start b g) (kept_from b g) (kept_to b g)
            (slices (kept_to b g - kept_from b g) g.loop (block_start b g) (kept_from b g)
              (kept_to b g))
            (taken-Tile b g h meets) in
        rw (select_meets b g current meets, current) (refl, omega arith, omega arith)
  ]
]
