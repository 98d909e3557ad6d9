-- ===== src/Prelude/Sorting.antt =====
-- `values.sort()` of texts: by their UTF-16 code units.
use Prim.Native.Nat.{ℕ, ◌+◌, ◌-◌, ◌/◌, ◌%◌}
use Prim.Native.Char.{code}
use Prim.Native.String.{String}
use mathlib.Core.Bool.{Bool, true, false}
use mathlib.Core.List.{List, [], ◌∷◌}
use torsor.Prelude.Tests.{ltb, ◌==◌, if◌then◌else◌}

-- the code units of a character, two above 0xffff
abbrev pub char_units : ℕ → List ℕ → List ℕ
char_units c rest =
    if ltb c 0x10000
    then c ∷ rest
    else (0xd800 + (c - 0x10000) / 0x400) ∷ (0xdc00 + (c - 0x10000) % 0x400) ∷ rest

unfoldable pub units : String → List ℕ
units String.[] = []
units (String.◌∷◌ c s) = char_units (code c) (units s)

-- a list of code units comes before another, or is the same
unfoldable pub in_order : List ℕ → List ℕ → Bool
in_order [] ys = true
in_order (x ∷ xs) [] = false
in_order (x ∷ xs) (y ∷ ys) =
    let rest = in_order xs ys in if ltb x y then true else if x == y then rest else false

unfoldable pub insert_text : String → List String → List String
unfolding units in_order
insert_text s [] = s ∷ []
insert_text s (t ∷ ts) =
    let rest = insert_text s ts in if in_order (units s) (units t) then s ∷ t ∷ ts else t ∷ rest

unfoldable pub sort_texts : List String → List String
unfolding insert_text
sort_texts [] = []
sort_texts (s ∷ ss) = insert_text s (sort_texts ss)
