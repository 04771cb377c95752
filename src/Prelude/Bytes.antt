-- ===== src/Prelude/Bytes.antt =====
-- Byte strings as lists of numbers below 256, and unsigned big-endian integers of a fixed width.
use Prim.Native.Nat.{ℕ, zero, suc, ◌+◌, ◌*◌, ◌/◌, ◌%◌, ◌<◌}
use mathlib.Core.Path.{◌≡◌, refl, ap, ◌∙◌}
use mathlib.Core.List.{List, [], ◌∷◌, ◌++◌}
use mathlib.Core.Bool.{Bool, true, false, ◌&&◌}
use native.Mathlib.Omega.{arith}
use native.Mathlib.Nat.{div-add-mod'}
use stageforge.Prelude.Tests.{◌==◌}
use stageforge.Prelude.Lists.{length, take, drop, length-append}

abbrev pub Bytes : Type 0
Bytes = List ℕ

abbrev pub bytes_eq : Bytes → Bytes → Bool
bytes_eq [] [] = true
bytes_eq [] (y ∷ ys) = false
bytes_eq (x ∷ xs) [] = false
bytes_eq (x ∷ xs) (y ∷ ys) = x == y && bytes_eq xs ys

pub bytes_eq_refl : (xs : Bytes) → bytes_eq xs xs ≡ true
bytes_eq_refl [] = refl
bytes_eq_refl (x ∷ xs) = ground (arith, bytes_eq_refl xs)

pub bytes_eq_sound : (xs ys : Bytes) → bytes_eq xs ys ≡ true → xs ≡ ys
bytes_eq_sound [] [] h = refl
bytes_eq_sound [] (y ∷ ys) h = absurd (cc)
bytes_eq_sound (x ∷ xs) [] h = absurd (cc)
bytes_eq_sound (x ∷ xs) (y ∷ ys) h =
    let e : x ≡ y = ground arith in let es : xs ≡ ys = bytes_eq_sound xs ys (ground arith) in cc

-- One more than the greatest number of `w` bytes
unfoldable pub bound : ℕ → ℕ
bound zero = 1
bound (suc w) = bound w * 256

-- The big-endian bytes of a number, as `struct.pack` and `int.to_bytes` write them where it fits
unfoldable pub be : ℕ → ℕ → Bytes
be zero v = []
be (suc w) v = be w (v / 256) ++ v % 256 ∷ []

-- The number that big-endian bytes hold, read after a prefix that holds `acc`
unfoldable pub read_be : ℕ → Bytes → ℕ
read_be acc [] = acc
read_be acc (b ∷ bs) = read_be (acc * 256 + b) bs

abbrev pub of_be : Bytes → ℕ
of_be bs = read_be 0 bs

read_be-append : (acc b : ℕ) (xs : Bytes) → read_be acc (xs ++ b ∷ []) ≡ read_be acc xs * 256 + b
unfolding read_be
read_be-append acc b [] = refl
read_be-append acc b (x ∷ xs) = read_be-append (acc * 256 + x) b xs

pub of_be-be : (w v : ℕ) → v < bound w → of_be (be w v) ≡ v
unfolding be bound read_be
of_be-be zero v h = omega arith
of_be-be (suc w) v h =
    let fits : v / 256 < bound w = omega (arith, div-add-mod' v 256) in
    read_be-append 0 (v % 256) (be w (v / 256))
    ∙ omega (arith, of_be-be w (v / 256) fits, div-add-mod' v 256)

pub length-be : (w v : ℕ) → length (be w v) ≡ w
unfolding be
length-be zero v = refl
length-be (suc w) v =
    omega (arith, length-append (be w (v / 256)) (v % 256 ∷ []), length-be w (v / 256))

module _ {ℓ} {A : Type ℓ} where
  pub take-append : (n : ℕ) (xs ys : List A) → length xs ≡ n → take n (xs ++ ys) ≡ xs
  take-append zero [] ys h = refl
  take-append zero (x ∷ xs) ys h = absurd (omega arith)
  take-append (suc n) [] ys h = absurd (omega arith)
  take-append (suc n) (x ∷ xs) ys h = ap (λ r. x ∷ r) (take-append n xs ys (omega arith))

  pub drop-append : (n : ℕ) (xs ys : List A) → length xs ≡ n → drop n (xs ++ ys) ≡ ys
  drop-append zero [] ys h = refl
  drop-append zero (x ∷ xs) ys h = absurd (omega arith)
  drop-append (suc n) [] ys h = absurd (omega arith)
  drop-append (suc n) (x ∷ xs) ys h = drop-append n xs ys (omega arith)

  drop-nil : (n : ℕ) (xs : List A) → xs ≡ [] → drop n xs ≡ []
  drop-nil zero xs h = h
  drop-nil (suc n) [] h = refl
  drop-nil (suc n) (x ∷ xs) h = absurd (cc)

  pub drop-drop : (m n k : ℕ) (xs : List A) → k ≡ m + n → drop n (drop m xs) ≡ drop k xs
  drop-drop zero n k xs h = ap (λ j. drop j xs) (omega arith)
  drop-drop (suc m) n zero xs h = absurd (omega arith)
  drop-drop (suc m) n (suc k) [] h = drop-nil n [] refl
  drop-drop (suc m) n (suc k) (x ∷ xs) h = drop-drop m n k xs (omega arith)
