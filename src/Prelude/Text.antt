-- ===== src/Prelude/Text.antt =====
-- Rust's `str` methods that the program uses, over the characters of a text.
use Prim.Native.Nat.{ℕ, zero, suc, ◌≤◌}
use Prim.Native.Char.{code}
use Prim.Native.String.{String, [], ◌∷◌}
use mathlib.Core.Path.{◌≡◌, refl}
use mathlib.Core.Bool.{Bool, true, false, ◌&&◌, ◌||◌}
use mathlib.Core.Option.{Option, none, some}
use native.Mathlib.Omega.{arith}
use fire_ctrl.Prelude.Tests.{leb, ◌==◌, if◌then◌else◌}

-- The characters of `char::is_whitespace`.
unfoldable pub is_whitespace : ℕ → Bool
is_whitespace c =
    (leb 9 c && leb c 13)
    || c == 32
    || c == 133
    || c == 160
    || c == 5760
    || (leb 8192 c && leb c 8202)
    || c == 8232
    || c == 8233
    || c == 8239
    || c == 8287
    || c == 12288

unfoldable pub trim_start : String → String
unfolding is_whitespace
trim_start [] = []
trim_start (c ∷ s) = let rest = trim_start s in if is_whitespace (code c) then rest else c ∷ s

abbrev pub is_empty : String → Bool
is_empty [] = true
is_empty (c ∷ s) = false

unfoldable pub trim_end : String → String
unfolding is_whitespace
trim_end [] = []
trim_end (c ∷ s) =
    let rest = trim_end s in if is_whitespace (code c) && is_empty rest then [] else c ∷ rest

unfoldable pub trim : String → String
unfolding trim_start trim_end
trim s = trim_start (trim_end s)

-- `strip_prefix`: the text after the prefix.
unfoldable pub strip_prefix : String → String → Option String
strip_prefix [] s = some s
strip_prefix (p ∷ ps) [] = none
strip_prefix (p ∷ ps) (c ∷ s) = if code p == code c then strip_prefix ps s else none

unfoldable pub starts_with : String → String → Bool
unfolding strip_prefix
starts_with p s = elim (strip_prefix p s) [ none ↦ false | some r ↦ true ]

-- `find`: where the pattern first begins.
unfoldable pub find : String → String → Option ℕ
unfolding starts_with
find p [] = if is_empty p then some 0 else none
find p (c ∷ s) =
    let rest = find p s in
    if starts_with p (c ∷ s) then some 0 else elim rest [ none ↦ none | some i ↦ some (suc i) ]

unfoldable pub contains : String → String → Bool
unfolding find
contains p s = elim (find p s) [ none ↦ false | some i ↦ true ]

-- `rfind` of one character.
unfoldable pub rfind_char : ℕ → String → Option ℕ
rfind_char k [] = none
rfind_char k (c ∷ s) = elim (rfind_char k s) [
  | none ↦ if code c == k then some 0 else none
  | some i ↦ some (suc i)
]

unfoldable pub find_char : ℕ → String → Option ℕ
find_char k [] = none
find_char k (c ∷ s) =
    let rest = find_char k s in
    if code c == k then some 0 else elim rest [ none ↦ none | some i ↦ some (suc i) ]

-- `chars().count()`.
unfoldable pub char_count : String → ℕ
char_count [] = 0
char_count (c ∷ s) = suc (char_count s)

-- `chars().take(n)`, and the rest.
unfoldable pub take_chars : ℕ → String → String
take_chars zero s = []
take_chars (suc n) [] = []
take_chars (suc n) (c ∷ s) = c ∷ take_chars n s

unfoldable pub drop_chars : ℕ → String → String
drop_chars zero s = s
drop_chars (suc n) [] = []
drop_chars (suc n) (c ∷ s) = drop_chars n s

pub char_count-take_chars-le : (n : ℕ) (s : String) → char_count (take_chars n s) ≤ n
unfolding char_count take_chars
char_count-take_chars-le zero s = omega arith
char_count-take_chars-le (suc n) [] = omega arith
char_count-take_chars-le (suc n) (c ∷ s) = omega (arith, char_count-take_chars-le n s)

pub take_chars_all : (n : ℕ) (s : String) → char_count s ≤ n → take_chars n s ≡ s
unfolding char_count take_chars
take_chars_all zero [] h = refl
take_chars_all zero (c ∷ s) h = absurd (omega arith)
take_chars_all (suc n) [] h = refl
take_chars_all (suc n) (c ∷ s) h = λ i. c ∷ take_chars_all n s (omega arith) i
