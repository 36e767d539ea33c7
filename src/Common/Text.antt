-- ===== src/Common/Text.antt =====
-- Texts that the program walks: lists of code points.
use Prim.Native.Nat.{ℕ, zero, suc, ◌+◌, ◌/◌, ◌%◌}
use Prim.Native.Char.{code}
use Prim.Native.String.{String}
use mathlib.Core.Bool.{Bool, true, false}
use mathlib.Core.List.{List, [], ◌∷◌, ◌++◌}
use mathlib.Core.Option.{Option, none, some}
use delta_forge_benchmarks.Common.Equality.{◌==◌, nat_eq}
use delta_forge_benchmarks.Common.Tests.{ltb, if◌then◌else◌}

abbrev pub Text : Type 0
Text = List ℕ

abbrev pub codes : String → Text
codes String.[] = []
codes (String.◌∷◌ c s) = code c ∷ codes s

-- `<=` on texts: Python compares code point by code point.
abbrev pub text_le : Text → Text → Bool
text_le [] t = true
text_le (c ∷ s) [] = false
text_le (c ∷ s) (d ∷ t) =
    let rest = text_le s t in if ltb c d then true else if ltb d c then false else rest

-- `str(n)`: the decimal digits. Each round drops one, so `n` rounds are enough.
unfoldable pub show_fuel : ℕ → ℕ → Text
show_fuel zero n = []
show_fuel (suc f) n =
    let rest = show_fuel f (n / 10) in
    if ltb n 10 then (48 + n) ∷ [] else rest ++ (48 + n % 10) ∷ []

unfoldable pub show : ℕ → Text
unfolding show_fuel
show n = show_fuel (suc n) n

-- `s[len(p):]` if `s.startswith(p)`
abbrev pub strip_prefix : Text → Text → Option Text
strip_prefix [] s = some s
strip_prefix (c ∷ p) [] = none
strip_prefix (c ∷ p) (d ∷ s) = let rest = strip_prefix p s in if c == d then rest else none

-- `f"{n:,}"`: a comma before each group of three digits. Each round drops three digits.
abbrev pub three_digits : ℕ → Text
three_digits r = (48 + r / 100) ∷ (48 + r / 10 % 10) ∷ (48 + r % 10) ∷ []

unfoldable pub grouped_fuel : ℕ → ℕ → Text
unfolding show
grouped_fuel zero n = []
grouped_fuel (suc f) n =
    let rest = grouped_fuel f (n / 1000) in
    if ltb n 1000 then show n else rest ++ 44 ∷ three_digits (n % 1000)

unfoldable pub grouped : ℕ → Text
unfolding grouped_fuel
grouped n = grouped_fuel (suc n) n
