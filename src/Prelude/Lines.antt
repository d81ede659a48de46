-- ===== src/Prelude/Lines.antt =====
-- Rust's `split` at a character, `lines` and `join`.
use Prim.Native.Nat.{ℕ}
use Prim.Native.Char.{Char, code}
use Prim.Native.String.{String, [] as empty, ◌∷◌ as cons, ◌++◌}
use mathlib.Core.List.{List, [], ◌∷◌, map}
use fire_ctrl.Prelude.Tests.{◌==◌, if◌then◌else◌}
use fire_ctrl.Prelude.Text.{is_empty}

abbrev onto_first : Char → List String → List String
onto_first c [] = cons c empty ∷ []
onto_first c (t ∷ ts) = cons c t ∷ ts

-- `split(c)`: the pieces between the characters `k`, at least one.
unfoldable pub split_char : ℕ → String → List String
split_char k empty = empty ∷ []
split_char k (cons c s) =
    let rest = split_char k s in if code c == k then empty ∷ rest else onto_first c rest

-- The last piece of `lines` is left out where it is empty.
abbrev drop_empty_last : List String → List String
drop_empty_last [] = []
drop_empty_last (s ∷ []) = if is_empty s then [] else s ∷ []
drop_empty_last (s ∷ t ∷ ts) = s ∷ drop_empty_last (t ∷ ts)

-- A carriage return at the end of a line is no part of it.
unfoldable pub strip_cr : String → String
strip_cr empty = empty
strip_cr (cons c s) =
    let rest = strip_cr s in
    if is_empty s then (if code c == 13 then empty else cons c empty) else cons c rest

unfoldable pub lines : String → List String
unfolding split_char strip_cr
lines s = map strip_cr (drop_empty_last (split_char 10 s))

-- `join`.
unfoldable pub joined : String → List String → String
joined sep [] = ""
joined sep (s ∷ []) = s
joined sep (s ∷ t ∷ ts) = s ++ (sep ++ joined sep (t ∷ ts))
