-- ===== src/Published/Format.antt =====
-- `speedup`, `render_table` and `fmt_ms` of reports/build_published.py.
use delta_forge_benchmarks.Common.{
  ℕ, ◌+◌, ◌*◌, ◌/◌, ◌%◌, Option, none, some, List, [], ◌∷◌, ◌++◌, map, if◌then◌else◌, ◌==◌, nat_eq,
}
use delta_forge_benchmarks.Common.Text.{Text, codes, show, grouped}
use delta_forge_benchmarks.Engines.Output.{join_lines}
use delta_forge_benchmarks.Host.Short.{join_with}
use delta_forge_benchmarks.Stats.Percentile.{round_ratio}

-- `.hh` of a number of hundredths
abbrev pub two_digits : ℕ → Text
two_digits n = b'.' ∷ (48 + n / 10 % 10) ∷ (48 + n % 10) ∷ []

-- `f"{df_ms / other_ms:.2f}x"`, or a dash where a time is missing or the divisor is not positive.
abbrev ratio_text : ℕ → ℕ → Text
ratio_text df other =
    if other == 0
    then codes "-"
    else (let h = round_ratio (df * 100) other in show (h / 100) ++ two_digits h ++ codes "x")

unfoldable pub speedup : Option ℕ → Option ℕ → Text
unfolding show
speedup none other = codes "-"
speedup (some df) none = codes "-"
speedup (some df) (some other) = ratio_text df other

-- `f"{ms:,.2f}"` of a median in hundredths of a microsecond
unfoldable pub fmt_ms : Option ℕ → Text
unfolding grouped
fmt_ms none = codes "-"
fmt_ms (some v) = let h = round_ratio v 1000 in grouped (h / 100) ++ two_digits h

unfoldable pub table_row : List Text → Text
unfolding join_with
table_row cells = codes "| " ++ join_with (codes " | ") cells ++ codes " |"

-- The rows and the columns, each with its header and its alignment.
unfoldable pub render_table : List (List Text) → List (Text × Text) → Text
unfolding table_row
render_table rows cols =
    join_lines
      (table_row (map (λ c. c.0) cols) ∷ table_row (map (λ c. c.1) cols) ∷ map table_row rows)
