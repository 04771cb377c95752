-- ===== src/Overload/Tests.antt =====
-- A plan for three effects at the first level, and the theorem about it.
use stageforge.Prelude.{refl, str_eq, some, List, [], ◌∷◌}
use stageforge.Prelude.Int.{pos}
use stageforge.Overload.Shedding.{
  RawEffect, effect_of, SheddingPlan, shed, read_levels, read_effects, read_effect, read_fresh,
  read_between, known_safety, known_mode, has_id, ids, eligible, put_effect, sheds_before,
  bypass_at, blocked, essential, read_prior, sort_ids, shedding_of, overload_shedding_plan,
}
use stageforge.Overload.Safety.{IsSafe, overload_shedding_plan-IsSafe}

abbrev three_effects : List RawEffect
three_effects =
    effect_of (some (pos 1)) (some (pos 0)) "essential" "never" (some (pos 0))
    ∷ effect_of (some (pos 2)) (some (pos 1)) "optional" "latency-preserving" (some (pos 5))
    ∷ effect_of (some (pos 3)) (some (pos 0)) "optional" "latency-preserving" (some (pos 9))
    ∷ []

abbrev sheds_third : SheddingPlan
sheds_third = record {
  level = 1;
  action = shed;
  bypass = 3 ∷ [];
  to_restore = [];
  blocked_ids = [];
  essential_ids = 1 ∷ [];
}

overload_shedding_plan-IsSafe_example :
    IsSafe (some (pos 0) ∷ some (pos 1) ∷ []) three_effects sheds_third
unfolding overload_shedding_plan read_levels read_effects read_effect read_fresh read_between
    known_safety known_mode has_id ids eligible put_effect sheds_before bypass_at blocked essential
    read_prior sort_ids shedding_of str_eq
overload_shedding_plan-IsSafe_example =
    overload_shedding_plan-IsSafe (some (pos 0) ∷ some (pos 1) ∷ []) three_effects [] sheds_third
      refl
