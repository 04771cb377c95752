-- ===== src/Timing/Tests.antt =====
-- A timing plan and a latency plan, and the theorems about them.
use stageforge.Prelude.{
  ◌+◌, ◌≤◌, ◌≡◌, refl, str_eq, false, none, some, List, [], ◌∷◌, All, ◌⊎◌, true,
}
use stageforge.Prelude.Int.{pos}
use stageforge.Prelude.Text.{is_set, strip, str_length}
use stageforge.Timing.Dispatch.{TimingRequest, TimingPlan, IsPlan, timing_plan, timing_plan-IsPlan}
use stageforge.Timing.Alignment.{
  PluginPath, DelayPlan, no_slot, slot_at, latency_compensation_plan, plan_aligns, Follows,
  has_latency,
}

abbrev asked : TimingRequest
asked = record {
  now_ns = some (pos 100);
  target_ns = some (pos 1000);
  fixed_ns = some (pos 300);
  jitter_ns = some (pos 50);
  lookahead_ns = some (pos 200);
  margin = some (pos 2);
}

abbrev planned : TimingPlan
planned = record {
  now_ns = 100;
  target_ns = 1000;
  fixed_ns = 300;
  jitter_ns = 50;
  lookahead_ns = 200;
  margin = 2;
  dispatch_ns = 600;
  reserve_ns = 400;
  late = false;
}

asked-plans : timing_plan asked ≡ some planned
unfolding timing_plan
asked-plans = refl

wide_margin-refused : timing_plan (record asked { margin = some (pos 17) }) ≡ none
unfolding timing_plan
wide_margin-refused = refl

timing_plan-IsPlan_example : IsPlan asked planned
timing_plan-IsPlan_example = timing_plan-IsPlan asked planned asked-plans

abbrev chain : List PluginPath
chain =
    record { latency = some (pos 64); path_id = some "eq"; slot = slot_at (pos 1) }
    ∷ record { latency = some (pos 256); path_id = some "reverb"; slot = no_slot }
    ∷ []

abbrev aligned : DelayPlan
aligned = record {
  paths =
      record { path_id = "eq"; latency = 64; slot = some 1; compensation = 192 }
      ∷ record { path_id = "reverb"; latency = 256; slot = none; compensation = 0 }
      ∷ [];
  maximum = 256;
}

chain-aligns : latency_compensation_plan (pos 65536) chain ≡ some aligned
unfolding latency_compensation_plan strip is_set str_eq str_length
chain-aligns = refl

plan_aligns_example :
    All (λ p. p.latency + p.compensation ≡ aligned.maximum) aligned.paths
    × Follows chain aligned.paths
    × (aligned.maximum ≤ 65536)
    × ((aligned.maximum ≡ 0) ⊎ (has_latency aligned.maximum aligned.paths ≡ true))
plan_aligns_example = plan_aligns (pos 65536) chain aligned chain-aligns
