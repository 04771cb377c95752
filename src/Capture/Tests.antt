-- ===== src/Capture/Tests.antt =====
-- A gate that loops over ten frames, twice, with a pre-roll of five, and the theorems about it.
use stageforge.Prelude.{◌+◌, ◌<◌, ◌≤◌, ◌≡◌, refl, arith, true, false, ◌⊎◌, none, some, [], ◌∷◌, All}
use stageforge.Prelude.Int.{pos}
use stageforge.Capture.Gate.{Gate, Plan, Block, new_gate, select, total_frames}
use stageforge.Capture.Slicing.{Tile, IsInPass}
use stageforge.Capture.Selection.{select_lem, select_counts, kept_from, kept_to, block_start}

abbrev twice : Plan
twice = record {
  generation = pos 3;
  punch_in_frame = pos 15;
  punch_out_frame = none;
  pre_roll_frames = pos 5;
  latency_frames = pos 2;
  loop_start_frame = some (pos 20);
  loop_end_frame = some (pos 30);
  maximum_passes = pos 2;
}

abbrev opened : Gate
opened = record {
  generation = 3;
  punch_in = 15;
  pre_roll = 5;
  latency = 2;
  loop = some (record { start = 20; end = 30 });
  maximum_passes = 2;
  capture_start = 10;
  capture_end = some 40;
  selected_frames = 0;
  discarded_frames = 0;
  stale_blocks = 0;
  loop_passes = [];
  complete = false;
}

twice-opens : new_gate twice ≡ some opened
unfolding new_gate
twice-opens = refl

abbrev whole : Block
whole = record { generation = some 3; frames = 64; show_frame = pos 2 }

whole-slices :
    (select whole opened).0
    ≡ record { offset = 10; frames = 10; corrected_start_frame = 10; loop_pass = 0 }
      ∷ record { offset = 20; frames = 10; corrected_start_frame = 20; loop_pass = 0 }
      ∷ record { offset = 30; frames = 10; corrected_start_frame = 30; loop_pass = 1 }
      ∷ []
unfolding select
whole-slices = refl

whole-completes : (select whole opened).1.complete ≡ true
unfolding select
whole-completes = refl

late_punch-refused : new_gate (record twice { punch_out_frame = some (pos 15) }) ≡ none
unfolding new_gate
late_punch-refused = refl

select_lem_example :
    (((kept_to whole opened ≤ kept_from whole opened) × ((select whole opened).0 ≡ []))
      ⊎ ((kept_from whole opened < kept_to whole opened)
          × Tile
              (block_start whole opened)
              (kept_from whole opened)
              (kept_to whole opened)
              (select whole opened).0))
    × All (IsInPass opened.loop) (select whole opened).0
select_lem_example = select_lem whole opened (omega arith) refl

select_counts_example :
    ((select whole opened).1.selected_frames ≡ 0 + total_frames (select whole opened).0)
    × ((select whole opened).1.selected_frames + (select whole opened).1.discarded_frames ≡ 64)
    × ((select whole opened).1.stale_blocks ≡ 0)
select_counts_example = select_counts whole opened (omega arith)
