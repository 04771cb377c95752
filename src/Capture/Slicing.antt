-- ===== src/Capture/Slicing.antt =====
-- The slices that the gate cuts out of a block.
use stageforge.Prelude.{
  ℕ, zero, suc, ◌+◌, ◌-◌, ◌*◌, ◌/◌, ◌≤◌, ◌<◌, ◌≡◌, refl, ltb, true, false, ◌⊎◌, inl, inr,
  Bool-cases, Option, none, some, List, [], ◌∷◌, arith, All,
}
use native.Mathlib.Nat.{div-add-mod', mod-lt}
use stageforge.Capture.Gate.{CaptureSlice, LoopRange, cut, slices, total_frames}

-- A loop range has at least one frame.
abbrev pub IsLoop : Option LoopRange → Type 0
IsLoop none = Unit
IsLoop (some l) = l.start < l.end

next_pass : (a n : ℕ) → 0 < n → (a < (a / n + 1) * n) × (a / n * n ≤ a)
next_pass a n h = (omega (arith, div-add-mod' a n, mod-lt a h), omega (arith, div-add-mod' a n))

-- A round of the loop moves the cursor on, and not beyond the end.
pub cut_progress :
    (loop : Option LoopRange) (cursor finish : ℕ)
    → IsLoop loop
    → cursor < finish
    → (cursor < (cut loop cursor finish).1) × ((cut loop cursor finish).1 ≤ finish)
unfolding cut
cut_progress none cursor finish h lt = omega arith
cut_progress (some l) cursor finish h lt =
    ground (arith, next_pass (cursor - l.start) (l.end - l.start))

-- The slices lie one behind another, from `cursor` to `finish`, each with at least one frame and at
-- its place in the block that begins at `start`.
abbrev pub Tile : ℕ → ℕ → ℕ → List CaptureSlice → Type 0
Tile start cursor finish [] = cursor ≡ finish
Tile start cursor finish (x ∷ xs) =
    (x.corrected_start_frame ≡ cursor)
    × (start + x.offset ≡ cursor)
    × (0 < x.frames)
    × Tile start (cursor + x.frames) finish xs

-- A slice lies before the loop, or within one pass of it, which is the pass that it is marked with.
abbrev pub IsInPass : Option LoopRange → CaptureSlice → Type 0
IsInPass none x = x.loop_pass ≡ 0
IsInPass (some l) x =
    ((x.loop_pass ≡ 0) × (x.corrected_start_frame + x.frames ≤ l.start))
    ⊎ ((l.start + x.loop_pass * (l.end - l.start) ≤ x.corrected_start_frame)
        × (x.corrected_start_frame + x.frames ≤ l.start + (x.loop_pass + 1) * (l.end - l.start)))

cut-IsInPass :
    (loop : Option LoopRange) (start cursor finish : ℕ)
    → IsLoop loop
    → cursor < finish
    → IsInPass loop (record {
      offset = cursor - start;
      frames = (cut loop cursor finish).1 - cursor;
      corrected_start_frame = cursor;
      loop_pass = (cut loop cursor finish).0;
    })
unfolding cut
cut-IsInPass none start cursor finish h lt = refl
cut-IsInPass (some l) start cursor finish h lt = elim (Bool-cases (ltb cursor l.start)) [
  | inl before ↦ rw before (inl (refl, ground arith))
  | inr inside ↦
      let (a, b) = next_pass (cursor - l.start) (l.end - l.start) (omega arith) in
      rw inside (inr (ground arith, ground arith))
]

slices-nil :
    (fuel : ℕ) (loop : Option LoopRange) (start cursor finish : ℕ)
    → ltb cursor finish ≡ false
    → slices (suc fuel) loop start cursor finish ≡ []
unfolding slices
slices-nil fuel loop start cursor finish e = rw (e, slices)

slices-cons :
    (fuel : ℕ) (loop : Option LoopRange) (start cursor finish : ℕ)
    → ltb cursor finish ≡ true
    → slices (suc fuel) loop start cursor finish
      ≡ record {
        offset = cursor - start;
        frames = (cut loop cursor finish).1 - cursor;
        corrected_start_frame = cursor;
        loop_pass = (cut loop cursor finish).0;
      }
        ∷ slices fuel loop start (cut loop cursor finish).1 finish
unfolding slices
slices-cons fuel loop start cursor finish e = rw (e, slices)

-- With as many rounds as there are frames, the loop cuts the whole window into slices.
pub slices-Tile :
    (fuel : ℕ) (loop : Option LoopRange) (start cursor finish : ℕ)
    → IsLoop loop
    → start ≤ cursor
    → cursor ≤ finish
    → finish - cursor ≤ fuel
    → Tile start cursor finish (slices fuel loop start cursor finish)
unfolding slices
slices-Tile zero loop start cursor finish h s c f = omega arith
slices-Tile (suc fuel) loop start cursor finish h s c f = elim (Bool-cases (ltb cursor finish)) [
  | inr done ↦ rw (slices-nil fuel loop start cursor finish done) (ground arith)
  | inl more ↦
      let (on, within) = cut_progress loop cursor finish h (ground arith) in
      let boundary = (cut loop cursor finish).1 in
      let step : cursor + (boundary - cursor) ≡ boundary = omega arith in
      rw (slices-cons fuel loop start cursor finish more) (
        refl,
        omega arith,
        omega arith,
        rw step (slices-Tile fuel loop start boundary finish h (omega arith) within (omega arith)),
      )
]

pub slices-IsInPass :
    (fuel : ℕ) (loop : Option LoopRange) (start cursor finish : ℕ)
    → IsLoop loop
    → All (IsInPass loop) (slices fuel loop start cursor finish)
unfolding slices
slices-IsInPass zero loop start cursor finish h = tt
slices-IsInPass (suc fuel) loop start cursor finish h = elim (Bool-cases (ltb cursor finish)) [
  | inr done ↦ rw (slices-nil fuel loop start cursor finish done) tt
  | inl more ↦ rw (slices-cons fuel loop start cursor finish more) (
    cut-IsInPass loop start cursor finish h (ground arith),
    slices-IsInPass fuel loop start (cut loop cursor finish).1 finish h,
  )
]

-- The frames of slices that tile a window are the window's.
pub total-Tile :
    (start cursor finish : ℕ) (xs : List CaptureSlice)
    → Tile start cursor finish xs
    → cursor + total_frames xs ≡ finish
total-Tile start cursor finish [] t = omega arith
total-Tile start cursor finish (x ∷ xs) (a, b, c, t) =
    omega (arith, total-Tile start (cursor + x.frames) finish xs t)
