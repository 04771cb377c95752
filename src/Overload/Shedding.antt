-- ===== src/Overload/Shedding.antt =====
-- `overload_shedding_plan` of backend/overload_policy.py; `none` is its ValueError. A field that is no integer
-- is `none`, and one that is missing has its default already.
use stageforge.Prelude.{
  ℕ, ◌==◌, leb, ltb, max, String, str_eq, Bool, true, false, not, ◌&&◌, ◌||◌, if◌then◌else◌, Option,
  none, some, List, [], ◌∷◌, ◌++◌,
}
use stageforge.Prelude.Cases.{◌>>=◌}
use stageforge.Prelude.Int.{ℤ, pos, negsuc}

pub data RawEffect : Type 0 where
  not_object : RawEffect
  effect_of : (id slot : Option ℤ) (safety mode : String) (priority : Option ℤ) → RawEffect

pub record Effect : Type 0 where
  pub id : ℕ
  pub slot : ℕ
  pub safety : String
  pub mode : String
  pub priority : ℕ

-- An integer from `low` through `high`
unfoldable pub read_between : ℕ → ℕ → Option ℤ → Option ℕ
read_between low high none = none
read_between low high (some (negsuc n)) = none
read_between low high (some (pos n)) = if leb low n && leb n high then some n else none

unfoldable pub has_id : ℕ → List ℕ → Bool
has_id n [] = false
has_id n (m ∷ ms) = n == m || has_id n ms

-- The greatest level
unfoldable pub read_levels : List (Option ℤ) → Option ℕ
unfolding read_between
read_levels [] = some 0
read_levels (o ∷ os) = do level ← read_between 0 2 o; rest ← read_levels os; some (max level rest)

-- A positive integer that was not seen
unfoldable pub read_fresh : List ℕ → Option ℤ → Option ℕ
unfolding has_id
read_fresh seen none = none
read_fresh seen (some (negsuc n)) = none
read_fresh seen (some (pos n)) = if ltb 0 n && not (has_id n seen) then some n else none

unfoldable pub known_safety : String → Option String
known_safety s = if str_eq s "essential" || str_eq s "optional" then some s else none

unfoldable pub known_mode : String → Option String
known_mode s = if str_eq s "never" || str_eq s "latency-preserving" then some s else none

-- One effect, and its checks in their order
unfoldable pub read_effect : List ℕ → RawEffect → Option Effect
unfolding read_fresh read_between known_safety known_mode
read_effect seen not_object = none
read_effect seen (effect_of id slot safety mode priority) = do
  i ← read_fresh seen id
  s ← read_between 0 3 slot
  f ← known_safety safety
  m ← known_mode mode
  p ← read_between 0 1000 priority
  some (record { id = i; slot = s; safety = f; mode = m; priority = p })

unfoldable pub read_effects : List ℕ → List RawEffect → Option (List Effect)
unfolding read_effect
read_effects seen [] = some []
read_effects seen (r ∷ rs) = do
  e ← read_effect seen r
  rest ← read_effects (e.id ∷ seen) rs
  some (e ∷ rest)

abbrev pub is_optional : Effect → Bool
is_optional e = str_eq e.safety "optional"

abbrev pub is_preserving : Effect → Bool
is_preserving e = str_eq e.mode "latency-preserving"

-- The order of the key `(-shedPriority, outputSlot, effectId)`
unfoldable pub sheds_before : Effect → Effect → Bool
sheds_before a b =
    if not (a.priority == b.priority)
    then ltb b.priority a.priority
    else if not (a.slot == b.slot)
    then ltb a.slot b.slot
    else leb a.id b.id

unfoldable pub put_effect : Effect → List Effect → List Effect
unfolding sheds_before
put_effect e [] = e ∷ []
put_effect e (f ∷ fs) =
    let rest = put_effect e fs in if sheds_before e f then e ∷ f ∷ fs else f ∷ rest

-- `eligible`, sorted
unfoldable pub eligible : List Effect → List Effect
unfolding put_effect
eligible [] = []
eligible (e ∷ es) =
    if is_optional e && is_preserving e then put_effect e (eligible es) else eligible es

unfoldable pub ids : List Effect → List ℕ
ids [] = []
ids (e ∷ es) = e.id ∷ ids es

unfoldable pub blocked : List Effect → List ℕ
blocked [] = []
blocked (e ∷ es) = if is_optional e && not (is_preserving e) then e.id ∷ blocked es else blocked es

unfoldable pub essential : List Effect → List ℕ
essential [] = []
essential (e ∷ es) = if str_eq e.safety "essential" then e.id ∷ essential es else essential es

-- `prior`: the effects that are bypassed already, each once, in order
unfoldable pub read_prior : List ℕ → List ℕ → List (Option ℤ) → Option (List ℕ)
unfolding has_id
read_prior seen prior [] = some prior
read_prior seen prior (none ∷ os) = none
read_prior seen prior (some (negsuc n) ∷ os) = none
read_prior seen prior (some (pos n) ∷ os) =
    let rest = read_prior seen (if has_id n prior then prior else prior ++ (n ∷ [])) os in
    if has_id n seen then rest else none

unfoldable pub put_id : ℕ → List ℕ → List ℕ
put_id n [] = n ∷ []
put_id n (m ∷ ms) = let rest = put_id n ms in if leb n m then n ∷ m ∷ ms else m ∷ rest

unfoldable pub sort_ids : List ℕ → List ℕ
unfolding put_id
sort_ids [] = []
sort_ids (n ∷ ns) = put_id n (sort_ids ns)

abbrev pub first_only : List Effect → List Effect
first_only [] = []
first_only (e ∷ es) = e ∷ []

-- `bypass`: none, the first or all, by the level
unfoldable pub bypass_at : ℕ → List Effect → List ℕ
unfolding ids
bypass_at level es = if level == 0 then [] else if level == 1 then ids (first_only es) else ids es

pub data Action : Type 0 where
  restore shed hold : Action

abbrev pub is_some_id : List ℕ → Bool
is_some_id [] = false
is_some_id (n ∷ ns) = true

pub record SheddingPlan : Type 0 where
  pub level : ℕ
  pub action : Action
  pub bypass : List ℕ
  pub to_restore : List ℕ
  pub blocked_ids : List ℕ
  pub essential_ids : List ℕ

unfoldable pub shedding_of : ℕ → List Effect → List ℕ → SheddingPlan
unfolding eligible blocked essential bypass_at sort_ids
shedding_of level es prior =
    let bypass = bypass_at level (eligible es) in
    let back = if level == 0 then sort_ids prior else [] in
    record {
      level = level;
      action = if is_some_id back then restore else if is_some_id bypass then shed else hold;
      bypass = bypass;
      to_restore = back;
      blocked_ids = blocked es;
      essential_ids = essential es;
    }

unfoldable pub overload_shedding_plan :
    List (Option ℤ) → List RawEffect → List (Option ℤ) → Option SheddingPlan
unfolding read_levels read_effects read_prior shedding_of
overload_shedding_plan outputs effects bypassed = do
  level ← read_levels outputs
  es ← read_effects [] effects
  prior ← read_prior (ids es) [] bypassed
  some (shedding_of level es prior)
