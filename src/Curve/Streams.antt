-- ===== src/Curve/Streams.antt =====
-- `parse_stream_dir` of scale_out/aggregate.py. Digits are the ASCII ones.
pub mod RoundTrip
use delta_forge_benchmarks.Common.{
  ℕ, zero, suc, ◌+◌, ◌-◌, ◌*◌, ◌<◌, ◌≤◌, ◌≡◌, refl, ap, ◌∙◌, Bool, true, false, ◌&&◌, Option, none,
  some, List, [], ◌∷◌, ◌++◌, arith, leb, ltb, if◌then◌else◌, if_elim, ltb→lt, Option-cases, ◌==◌,
  nat_eq, list_eq, ◌/◌, ◌%◌, inl, inr, Bool-cases, sym,
}
use mathlib.Core.List.{append_assoc, append-nil}
use mathlib.Core.Option.{some-injective, none-ne-some}
use delta_forge_benchmarks.Common.Text.{Text, codes, strip_prefix, show, show_fuel}

abbrev pub is_digit : ℕ → Bool
is_digit c = leb 48 c && leb c 57

-- `int(...)` of a greedy `\d+`, and the text behind it
unfoldable pub read : ℕ → Text → ℕ × Text
read acc [] = (acc, [])
read acc (c ∷ s) =
    let rest = read (acc * 10 + (c - 48)) s in if is_digit c then rest else (acc, c ∷ s)

abbrev pub starts_digit : Text → Bool
starts_digit [] = false
starts_digit (c ∷ s) = is_digit c

-- `\d+`
unfoldable pub number : Text → Option (ℕ × Text)
unfolding read
number s = if starts_digit s then some (read 0 s) else none

abbrev pub digit_then : Bool → ℕ → Option (Text × Text) → Option (Text × Text)
digit_then false c o = none
digit_then true c none = none
digit_then true c (some (d, t)) = some (c ∷ d, t)

-- `\d{k}`
abbrev pub exact_digits : ℕ → Text → Option (Text × Text)
exact_digits zero s = some ([], s)
exact_digits (suc k) [] = none
exact_digits (suc k) (c ∷ s) = digit_then (is_digit c) c (exact_digits k s)

abbrev pub closed_stamp : Text → Text → Option Text → Option (Text × Text)
closed_stamp day time none = none
closed_stamp day time (some s) = some (day ++ 84 ∷ (time ++ 90 ∷ []), s)

abbrev pub stamp_time : Text → Option (Text × Text) → Option (Text × Text)
stamp_time day none = none
stamp_time day (some (time, s)) = closed_stamp day time (strip_prefix (90 ∷ []) s)

abbrev pub day_then : Text → Option Text → Option (Text × Text)
day_then day none = none
day_then day (some t) = stamp_time day (exact_digits 6 t)

abbrev pub stamp_day : Option (Text × Text) → Option (Text × Text)
stamp_day none = none
stamp_day (some (day, s)) = day_then day (strip_prefix (84 ∷ []) s)

-- `\d{8}T\d{6}Z`
unfoldable pub timestamp : Text → Option (Text × Text)
timestamp s = stamp_day (exact_digits 8 s)

-- `$`: the end, or a line break at the end
abbrev pub at_end : Text → Bool
at_end [] = true
at_end (c ∷ []) = c == 10
at_end (c ∷ d ∷ s) = false

abbrev pub stream_index : ℕ → Text → Option (ℕ × Text) → Option (ℕ × (Text × ℕ))
stream_index n ts none = none
stream_index n ts (some (i, s)) = if at_end s then some (n, (ts, i)) else none

abbrev pub after_stamp : ℕ → Option (Text × Text) → Option (ℕ × (Text × ℕ))
after_stamp n none = none
after_stamp n (some (ts, s)) = elim (strip_prefix (95 ∷ 115 ∷ []) s) [
  | none ↦ none
  | some t ↦ stream_index n ts (number t)
]

abbrev pub after_count : Option (ℕ × Text) → Option (ℕ × (Text × ℕ))
after_count none = none
after_count (some (n, s)) = elim (strip_prefix (95 ∷ []) s) [
  | none ↦ none
  | some t ↦ after_stamp n (timestamp t)
]

unfoldable pub parse_stream_dir : Text → Option (ℕ × (Text × ℕ))
unfolding number timestamp
parse_stream_dir name = elim (strip_prefix (codes "scaleout_n") name) [
  | none ↦ none
  | some s ↦ after_count (number s)
]
