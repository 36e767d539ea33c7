-- ===== src/Common/Words.antt =====
-- Python's `partition`, `split`, `in` and `isdigit` on ASCII texts.
use Prim.Native.Nat.{ℕ}
use mathlib.Core.Bool.{Bool, true, false, ◌&&◌, ◌||◌}
use mathlib.Core.List.{List, [], ◌∷◌}
use mathlib.Core.Option.{none, some}
use delta_forge_benchmarks.Common.Equality.{◌==◌, contains, nat_eq}
use delta_forge_benchmarks.Common.Lists.{all}
use delta_forge_benchmarks.Common.Tests.{leb, if◌then◌else◌}
use delta_forge_benchmarks.Common.Text.{Text, strip_prefix}

abbrev behind : ℕ → Text × Text → Text × Text
behind c (k, v) = (c ∷ k, v)

-- `s.partition(c)`: what stands before the first `c`, and what behind it.
unfoldable pub partition : ℕ → Text → Text × Text
partition sep [] = ([], [])
partition sep (c ∷ s) = let rest = partition sep s in if c == sep then ([], s) else behind c rest

-- `sep in s`
abbrev pub has_char : ℕ → Text → Bool
has_char c s = contains s c

abbrev is_prefix : Text → Text → Bool
is_prefix p s = elim (strip_prefix p s) [ none ↦ false | some _ ↦ true ]

-- `p in s`
unfoldable pub occurs : Text → Text → Bool
occurs p [] = is_prefix p []
occurs p (c ∷ s) = is_prefix p (c ∷ s) || occurs p s

abbrev pub is_blank : ℕ → Bool
is_blank c = (leb 9 c && leb c 13) || (leb 28 c && leb c 32)

abbrev add_char : Bool → ℕ → List Text → List Text
add_char new c [] = (c ∷ []) ∷ []
add_char true c (w ∷ ws) = (c ∷ []) ∷ w ∷ ws
add_char false c (w ∷ ws) = (c ∷ w) ∷ ws

abbrev ends_word : Text → Bool
ends_word [] = true
ends_word (c ∷ s) = is_blank c

-- `s.split()`: the words between white space.
unfoldable pub split_words : Text → List Text
split_words [] = []
split_words (c ∷ s) =
    let ws = split_words s in if is_blank c then ws else add_char (ends_word s) c ws

-- `s.isdigit()`
abbrev pub is_digits : Text → Bool
is_digits [] = false
is_digits (c ∷ s) = all (λ d. leb 48 d && leb d 57) (c ∷ s)

abbrev begin_part : ℕ → List Text → List Text
begin_part c [] = (c ∷ []) ∷ []
begin_part c (p ∷ ps) = (c ∷ p) ∷ ps

-- `s.split(",")`
unfoldable pub split_commas : Text → List Text
split_commas [] = [] ∷ []
split_commas (c ∷ s) = let ps = split_commas s in if c == b',' then [] ∷ ps else begin_part c ps
