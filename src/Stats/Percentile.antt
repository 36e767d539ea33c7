-- ===== src/Stats/Percentile.antt =====
-- `percentile` of scale_out/aggregate.py and of reports/generate_report.py, Python's
-- `statistics.median`, and `round` of a ratio.
use delta_forge_benchmarks.Common.{
  suc, ltb, ℕ, ◌+◌, ◌-◌, ◌*◌, ◌/◌, ◌%◌, Option, none, some, List, [], ◌∷◌, leb, if◌then◌else◌, ◌==◌,
  nat_eq, length, get_or,
}
use Prim.Native.Nat.{min}
use delta_forge_benchmarks.Common.Sort.{sorted}

abbrev pub Ms : Type 0
Ms = ℕ

-- scale_out/aggregate.py, on the sorted list: `k` is in hundredths, so `lo` is `int(k)` and `frac` the
-- hundredths that are left.
unfoldable pub interpolate : List Ms → ℕ → ℕ
interpolate s k =
    let lo = k / 100 in
    let hi = min (lo + 1) (length s - 1) in
    let frac = k % 100 in get_or s lo 0 * (100 - frac) + get_or s hi 0 * frac

unfoldable pub percentile : List Ms → ℕ → Option ℕ
unfolding interpolate
percentile [] pct = none
percentile (x ∷ []) pct = some (x * 100)
percentile (x ∷ y ∷ xs) pct =
    let values = x ∷ y ∷ xs in some (interpolate (sorted leb values) ((length values - 1) * pct))

-- reports/generate_report.py: `hi` is the ceiling, and the difference is interpolated. The list is
-- sorted, so the difference is not negative.
unfoldable pub report_interpolate : List Ms → ℕ → ℕ
report_interpolate s rank =
    let lo = rank / 100 in
    let hi = (rank + 99) / 100 in
    if lo == hi
    then get_or s lo 0 * 100
    else get_or s lo 0 * 100 + (get_or s hi 0 - get_or s lo 0) * (rank - lo * 100)

unfoldable pub report_percentile : List Ms → ℕ → Option ℕ
unfolding report_interpolate
report_percentile [] p = none
report_percentile (x ∷ []) p = some (x * 100)
report_percentile (x ∷ y ∷ xs) p =
    let values = x ∷ y ∷ xs in
    some (report_interpolate (sorted leb values) (p * (length values - 1)))

-- `statistics.median`: the middle value, or the mean of the two in the middle.
unfoldable pub median_sorted : List Ms → ℕ
median_sorted s =
    let n = length s in
    if n % 2 == 1
    then get_or s (n / 2) 0 * 100
    else (get_or s (n / 2 - 1) 0 + get_or s (n / 2) 0) * 50

unfoldable pub median : List Ms → Option ℕ
unfolding median_sorted
median [] = none
median (x ∷ xs) = some (median_sorted (sorted leb (x ∷ xs)))

-- `round(a / b)` for a positive `b`
unfoldable pub round_ratio : ℕ → ℕ → ℕ
round_ratio a b =
    let q = a / b in
    let twice = 2 * (a % b) in
    if ltb twice b then q else if ltb b twice then suc q else if q % 2 == 0 then q else suc q
