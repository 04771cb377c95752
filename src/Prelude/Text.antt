-- ===== src/Prelude/Text.antt =====
-- Python's text operations: truth, `len`, `s[:n]`, `strip` and `lower`.
use Prim.Native.Char.{code}
use Prim.Native.Nat.{◌+◌, ◌/◌, ◌%◌, ℕ, zero, suc, ◌≤◌}
use Prim.Native.String.{String, ◌++◌ as text_append}
use mathlib.Core.List.{List, [], ◌∷◌}
use mathlib.Core.Bool.{Bool, true, false, not, ◌&&◌, ◌||◌}
use native.Mathlib.Omega.{arith}
use stageforge.Prelude.Tests.{str_eq, leb, ◌==◌, if◌then◌else◌}

-- `bool(s)`
unfoldable pub is_set : String → Bool
is_set s = not (str_eq s "")

-- `len(s)`, which counts code points
unfoldable pub str_length : String → ℕ
str_length String.[] = 0
str_length (String.◌∷◌ c s) = suc (str_length s)

-- `s[:n]`
unfoldable pub clip : ℕ → String → String
clip zero s = ""
clip (suc n) String.[] = ""
clip (suc n) (String.◌∷◌ c s) = String.◌∷◌ c (clip n s)

-- The code points that `str.strip` removes: those of `str.isspace`.
unfoldable pub is_space : ℕ → Bool
is_space c =
    (leb 9 c && leb c 13)
    || (leb 28 c && leb c 32)
    || (c == 133 || c == 160 || c == 5760)
    || (leb 8192 c && leb c 8202)
    || (c == 8232 || c == 8233 || c == 8239 || c == 8287 || c == 12288)

strip_left : String → String
strip_left String.[] = ""
strip_left (String.◌∷◌ c s) =
    let rest = strip_left s in if is_space (code c) then rest else String.◌∷◌ c s

-- A space is dropped on the right where nothing but spaces follows it.
strip_right : String → String
strip_right String.[] = ""
strip_right (String.◌∷◌ c s) =
    let rest = strip_right s in
    if is_space (code c) && str_eq rest "" then "" else String.◌∷◌ c rest

-- `s.strip()`
unfoldable pub strip : String → String
unfolding strip_left strip_right is_space
strip s = strip_right (strip_left s)

-- `s.lower()` for the letters A to Z and the Kelvin sign. The other characters that Python changes
-- become no ASCII text, so a test against an ASCII text has the same result.
unfoldable pub lower_code : ℕ → ℕ
lower_code c = if leb b'A' c && leb c b'Z' then c + 32 else if c == 8490 then b'k' else c

-- `s.lower() == t`, for an ASCII text `t`
unfoldable pub lower_is : String → String → Bool
unfolding lower_code
lower_is String.[] String.[] = true
lower_is String.[] (String.◌∷◌ d t) = false
lower_is (String.◌∷◌ c s) String.[] = false
lower_is (String.◌∷◌ c s) (String.◌∷◌ d t) = lower_code (code c) == code d && lower_is s t

-- A clipped text is no longer than the bound.
pub str_length-clip : (n : ℕ) (s : String) → str_length (clip n s) ≤ n
unfolding str_length clip
str_length-clip zero s = omega arith
str_length-clip (suc n) String.[] = omega arith
str_length-clip (suc n) (String.◌∷◌ c s) = omega (arith, str_length-clip n s)

-- A decimal digit
unfoldable pub digit : ℕ → String
digit zero = "0"
digit (suc zero) = "1"
digit (suc (suc zero)) = "2"
digit (suc (suc (suc zero))) = "3"
digit (suc (suc (suc (suc zero)))) = "4"
digit (suc (suc (suc (suc (suc zero))))) = "5"
digit (suc (suc (suc (suc (suc (suc zero)))))) = "6"
digit (suc (suc (suc (suc (suc (suc (suc zero))))))) = "7"
digit (suc (suc (suc (suc (suc (suc (suc (suc zero)))))))) = "8"
digit (suc (suc (suc (suc (suc (suc (suc (suc (suc n))))))))) = "9"

-- The digits of a number before `end`; a number has fewer digits than its successor.
digits_before : ℕ → ℕ → String → String
digits_before zero n end = end
digits_before (suc fuel) n end =
    let rest = digits_before fuel (n / 10) (text_append (digit (n % 10)) end) in
    if n / 10 == 0 then text_append (digit (n % 10)) end else rest

-- `str(n)`
unfoldable pub decimal : ℕ → String
unfolding digits_before digit
decimal n = digits_before (n + 1) n ""

-- The parts of an `f` string, one after another
unfoldable pub concat : List String → String
concat [] = ""
concat (s ∷ ss) = text_append s (concat ss)
