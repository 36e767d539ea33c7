-- ===== src/Common/Lines.antt =====
-- `str.splitlines` in ASCII.
use Prim.Native.Nat.{ℕ}
use mathlib.Core.Bool.{Bool, false, ◌&&◌, ◌||◌}
use mathlib.Core.List.{List, [], ◌∷◌}
use delta_forge_benchmarks.Common.Equality.{◌==◌, nat_eq}
use delta_forge_benchmarks.Common.Tests.{leb, if◌then◌else◌}
use delta_forge_benchmarks.Common.Text.{Text}

abbrev pub is_line_break : ℕ → Bool
is_line_break c = (leb 10 c && leb c 13) || (leb 28 c && leb c 30)

abbrev pub on_line : ℕ → List Text → List Text
on_line c [] = (c ∷ []) ∷ []
on_line c (l ∷ ls) = (c ∷ l) ∷ ls

-- The parts between the line breaks. The flag says that a carriage return stands before the text: with
-- a line feed it is one break.
unfoldable pub line_parts : Bool → Text → List Text
line_parts cr [] = [] ∷ []
line_parts cr (c ∷ s) =
    let rest = line_parts (c == 13) s in
    if cr && c == 10 then rest else if is_line_break c then [] ∷ rest else on_line c rest

-- A break at the end begins no line.
abbrev pub without_last_empty : List Text → List Text
without_last_empty [] = []
without_last_empty ([] ∷ []) = []
without_last_empty ((c ∷ l) ∷ []) = (c ∷ l) ∷ []
without_last_empty (l ∷ k ∷ ls) = l ∷ without_last_empty (k ∷ ls)

unfoldable pub splitlines : Text → List Text
unfolding line_parts
splitlines s = without_last_empty (line_parts false s)
