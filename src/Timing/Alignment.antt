-- ===== src/Timing/Alignment.antt =====
-- `latency_compensation_plan` of backend/plugin_latency.py. A path's fields are `none` or `not_integer`
-- where they have another type, or are missing and must not be.
use stageforge.Prelude.{
  ℕ, ◌+◌, ◌-◌, ◌≤◌, ◌≡◌, refl, subst, max, ltb, ◌==◌, String, str_eq, Bool, false, not, ◌||◌, inl,
  inr, if◌then◌else◌, Option, Option-cases, none, some, List, [], ◌∷◌, length, All, arith, ◌⊎◌,
  true,
}
use stageforge.Prelude.Int.{ℤ, pos, negsuc, pos_part, ltb_ℤ}
use stageforge.Prelude.Text.{is_set, strip, str_length}

pub data SlotField : Type 0 where
  no_slot not_integer : SlotField
  slot_at : ℤ → SlotField

pub record PluginPath : Type 0 where
  pub latency : Option ℤ
  pub path_id : Option String
  pub slot : SlotField

pub record AlignedPath : Type 0 where
  pub path_id : String
  pub latency : ℕ
  pub slot : Option ℕ
  pub compensation : ℕ

pub record DelayPlan : Type 0 where
  pub paths : List AlignedPath
  pub maximum : ℕ

abbrev has_text : String → List String → Bool
has_text s [] = false
has_text s (x ∷ xs) = str_eq x s || has_text s xs

abbrev has_slot : ℕ → List ℕ → Bool
has_slot n [] = false
has_slot n (x ∷ xs) = x == n || has_slot n xs

-- The latency of a path; `none` is the `ValueError`, here and below
unfoldable pub read_latency : ℤ → Option ℤ → Option ℕ
read_latency cap none = none
read_latency cap (some a) = if ltb_ℤ a (pos 0) || ltb_ℤ cap a then none else some (pos_part a)

unfoldable pub read_id : List String → Option String → Option String
read_id seen none = none
read_id seen (some s) =
    if not (is_set (strip s)) || (ltb 128 (str_length s) || has_text s seen) then none else some s

-- The slot of a path, if it has one
unfoldable pub read_slot : List ℕ → SlotField → Option (Option ℕ)
read_slot seen no_slot = some none
read_slot seen not_integer = none
read_slot seen (slot_at a) =
    if ltb_ℤ a (pos 0) || (ltb_ℤ (pos 15) a || has_slot (pos_part a) seen)
    then none
    else some (some (pos_part a))

abbrev add_slot : Option ℕ → List ℕ → List ℕ
add_slot none seen = seen
add_slot (some n) seen = n ∷ seen

-- The loop over the paths: they are not compensated yet, and `found` is the greatest latency so far.
unfoldable pub normalize : ℤ → List String → List ℕ → ℕ → List PluginPath → Option DelayPlan
unfolding read_latency read_id read_slot
normalize cap seen slots found [] = some (record { paths = []; maximum = found })
normalize cap seen slots found (p ∷ ps) = elim (read_latency cap p.latency) [
  | none ↦ none
  | some n ↦ elim (read_id seen p.path_id) [
    | none ↦ none
    | some s ↦ elim (read_slot slots p.slot) [
      | none ↦ none
      | some t ↦ elim (normalize cap (s ∷ seen) (add_slot t slots) (max found n) ps) [
        | none ↦ none
        | some d ↦ some (record {
          paths = record { path_id = s; latency = n; slot = t; compensation = 0 } ∷ d.paths;
          maximum = d.maximum;
        })
      ]
    ]
  ]
]

-- `item["compensationFrames"]=maximum-item["latencyFrames"]`
unfoldable pub compensate : ℕ → List AlignedPath → List AlignedPath
compensate m [] = []
compensate m (p ∷ ps) = record p { compensation = m - p.latency } ∷ compensate m ps

-- `latency_compensation_plan`
unfoldable pub latency_compensation_plan : ℤ → List PluginPath → Option DelayPlan
unfolding normalize compensate
latency_compensation_plan cap ps =
    if length ps == 0 || ltb 64 (length ps) then none else elim (normalize cap [] [] 0 ps) [
      | none ↦ none
      | some d ↦ some (record { paths = compensate d.maximum d.paths; maximum = d.maximum })
    ]

-- A path of the plan is the given one: its latency and slot are the given numbers, its identifier the text
-- given.
pub record IsSame (q : PluginPath) (p : AlignedPath) : Type 0 where
  pub latency : q.latency ≡ some (pos p.latency)
  pub path_id : q.path_id ≡ some p.path_id
  pub slot : q.slot ≡ elim p.slot [ none ↦ no_slot | some n ↦ slot_at (pos n) ]

-- The paths of the plan are the given ones, in their order.
unfoldable pub Follows : List PluginPath → List AlignedPath → Type 0
Follows [] [] = Unit
Follows [] (p ∷ ps) = ⊥
Follows (q ∷ qs) [] = ⊥
Follows (q ∷ qs) (p ∷ ps) = IsSame q p × Follows qs ps

-- Whether some path of the plan has a latency
unfoldable pub has_latency : ℕ → List AlignedPath → Bool
has_latency m [] = false
has_latency m (p ∷ ps) = m == p.latency || has_latency m ps

-- The list of paths after the loop
record IsRead (cap : ℤ) (found : ℕ) (ps : List PluginPath) (d : DelayPlan) : Type 0 where
  within : All (λ p. p.latency ≤ d.maximum) d.paths
  grown : found ≤ d.maximum
  kept : Follows ps d.paths
  attained : (d.maximum ≡ found) ⊎ (has_latency d.maximum d.paths ≡ true)
  capped : found ≤ pos_part cap → d.maximum ≤ pos_part cap

read_latency-capped :
    (cap : ℤ) (a : Option ℤ) (n : ℕ) → read_latency cap a ≡ some n → n ≤ pos_part cap
unfolding read_latency
read_latency-capped cap none n h = absurd (cc)
read_latency-capped cap (some a) n h = ground arith

read_latency-pos : (cap : ℤ) (a : Option ℤ) (n : ℕ) → read_latency cap a ≡ some n → a ≡ some (pos n)
unfolding read_latency
read_latency-pos cap none n h = absurd (cc)
read_latency-pos cap (some (negsuc m)) n h = absurd (ground arith)
read_latency-pos cap (some (pos m)) n h = let e : m ≡ n = ground arith in rw e refl

read_id-same :
    (seen : List String) (o : Option String) (s : String) → read_id seen o ≡ some s → o ≡ some s
unfolding read_id
read_id-same seen none s h = absurd (cc)
read_id-same seen (some x) s h = ground arith

read_slot-same :
    (seen : List ℕ) (f : SlotField) (t : Option ℕ)
    → read_slot seen f ≡ some t
    → f ≡ elim t as (λ o. SlotField) [ none ↦ no_slot | some n ↦ slot_at (pos n) ]
unfolding read_slot
read_slot-same seen no_slot t h =
    let e : none ≡ t = cc in
    subst (λ o. no_slot ≡ elim o as (λ o. SlotField) [ none ↦ no_slot | some n ↦ slot_at (pos n) ])
      e refl
read_slot-same seen not_integer t h = absurd (cc)
read_slot-same seen (slot_at (negsuc m)) t h = absurd (ground arith)
read_slot-same seen (slot_at (pos m)) t h =
    let e : some m ≡ t = ground arith in
    subst
      (λ o.
        slot_at (pos m) ≡ elim o as (λ o. SlotField) [ none ↦ no_slot | some n ↦ slot_at (pos n) ])
      e refl

joined :
    (cap : ℤ) (found n : ℕ) (s : String) (t : Option ℕ) (p : PluginPath) (ps : List PluginPath)
    (d : DelayPlan)
    → n ≤ pos_part cap
    → IsSame p (record { path_id = s; latency = n; slot = t; compensation = 0 })
    → IsRead cap (max found n) ps d
    → IsRead cap found (p ∷ ps) (record {
      paths = record { path_id = s; latency = n; slot = t; compensation = 0 } ∷ d.paths;
      maximum = d.maximum;
    })
unfolding Follows has_latency
joined cap found n s t p ps d c same r = record {
  within = (omega (arith, r.grown), r.within);
  grown = omega (arith, r.grown);
  kept = (same, r.kept);
  attained = let a = r.attained in ground arith;
  capped = λ h. r.capped (omega arith);
}

normalize-IsRead :
    (cap : ℤ) (seen : List String) (slots : List ℕ) (found : ℕ) (ps : List PluginPath)
    (d : DelayPlan)
    → normalize cap seen slots found ps ≡ some d
    → IsRead cap found ps d
unfolding normalize Follows
normalize-IsRead cap seen slots found [] d h =
    let e : record { paths = []; maximum = found } ≡ d = cc in
    subst (IsRead cap found []) e
      (record { within = tt; grown = omega arith; kept = tt; attained = inl refl; capped = λ k. k })
normalize-IsRead cap seen slots found (p ∷ ps) d h =
    elim (Option-cases (read_latency cap p.latency)) [
      | inl a ↦ absurd (ground arith)
      | inr (n, en) ↦ elim (Option-cases (read_id seen p.path_id)) [
        | inl b ↦ absurd (ground arith)
        | inr (s, es) ↦ elim (Option-cases (read_slot slots p.slot)) [
          | inl c ↦ absurd (ground arith)
          | inr (t, et) ↦
              elim (Option-cases (normalize cap (s ∷ seen) (add_slot t slots) (max found n) ps)) [
                | inl f ↦ absurd (ground arith)
                | inr (d', ed) ↦
                    let rest =
                      normalize-IsRead cap (s ∷ seen) (add_slot t slots) (max found n) ps d' ed in
                    let same : record {
                      paths =
                          record { path_id = s; latency = n; slot = t; compensation = 0 }
                          ∷ d'.paths;
                      maximum = d'.maximum;
                    }
                        ≡ d =
                      ground arith in
                    subst (IsRead cap found (p ∷ ps)) same (
                      joined cap found n s t p ps d' (read_latency-capped cap p.latency n en)
                        (record {
                          latency = read_latency-pos cap p.latency n en;
                          path_id = read_id-same seen p.path_id s es;
                          slot = read_slot-same slots p.slot t et;
                        })
                        rest)
              ]
        ]
      ]
    ]

compensate-aligned :
    (m : ℕ) (ps : List AlignedPath)
    → All (λ p. p.latency ≤ m) ps
    → All (λ p. p.latency + p.compensation ≡ m) (compensate m ps)
unfolding compensate
compensate-aligned m [] h = tt
compensate-aligned m (p ∷ ps) (h, hs) = (omega arith, compensate-aligned m ps hs)

compensate-Follows :
    (m : ℕ) (qs : List PluginPath) (ps : List AlignedPath)
    → Follows qs ps
    → Follows qs (compensate m ps)
unfolding compensate Follows
compensate-Follows m [] [] h = tt
compensate-Follows m [] (p ∷ ps) h = h
compensate-Follows m (q ∷ qs) [] h = h
compensate-Follows m (q ∷ qs) (p ∷ ps) (h, hs) = (
  record { latency = h.latency; path_id = h.path_id; slot = h.slot },
  compensate-Follows m qs ps hs,
)

has_latency-compensate :
    (m n : ℕ) (ps : List AlignedPath) → has_latency n (compensate m ps) ≡ has_latency n ps
unfolding compensate has_latency
has_latency-compensate m n [] = refl
has_latency-compensate m n (p ∷ ps) = rw (has_latency-compensate m n ps) refl

-- In a plan that is given, the paths are the given ones in their order, with their latencies,
-- identifiers and slots; each has the plan's maximum as the sum of its latency and its compensation; and
-- the maximum is within the capacity, and the latency of a path unless it is 0.
pub plan_aligns :
    (cap : ℤ) (ps : List PluginPath) (d : DelayPlan)
    → latency_compensation_plan cap ps ≡ some d
    → All (λ p. p.latency + p.compensation ≡ d.maximum) d.paths
      × Follows ps d.paths
      × (d.maximum ≤ pos_part cap)
      × ((d.maximum ≡ 0) ⊎ (has_latency d.maximum d.paths ≡ true))
unfolding latency_compensation_plan
plan_aligns cap ps d h = elim (Option-cases (normalize cap [] [] 0 ps)) [
  | inl bad ↦ absurd (ground arith)
  | inr (e, made) ↦
      let same : record { paths = compensate e.maximum e.paths; maximum = e.maximum } ≡ d =
        ground arith in
      let r = normalize-IsRead cap [] [] 0 ps e made in
      let m = e.maximum in
      subst
        (λ x.
          All (λ p. p.latency + p.compensation ≡ x.maximum) x.paths
          × Follows ps x.paths
          × (x.maximum ≤ pos_part cap)
          × ((x.maximum ≡ 0) ⊎ (has_latency x.maximum x.paths ≡ true)))
        same
        (
          compensate-aligned m e.paths r.within,
          compensate-Follows m ps e.paths r.kept,
          r.capped (omega arith),
          rw (has_latency-compensate m m e.paths) r.attained,
        )
]
