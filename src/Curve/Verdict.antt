-- ===== src/Curve/Verdict.antt =====
-- What scale_out/aggregate.py writes of the rows: the verdicts of `write_json` and the table and the
-- lists of `write_md`. The fixed texts and the layout are left out.
use delta_forge_benchmarks.Common.{
  ℕ, ◌*◌, Bool, true, false, ◌&&◌, Option, none, some, List, [], ◌∷◌, String, leb, ltb,
  if◌then◌else◌, ◌==◌, nat_eq, string_eq, length, keep, count_if, take, map,
}
use delta_forge_benchmarks.Common.Dict.{Dict, insert, lookup_or}
use delta_forge_benchmarks.Common.Sort.{sorted}
use delta_forge_benchmarks.Stats.Percentile.{round_ratio, percentile}
use delta_forge_benchmarks.Curve.Rows.{Row, name_le}

abbrev pub is_at : ℕ → Row → Bool
is_at n r = r.n == n

abbrev pub has_samples : Row → Bool
has_samples r = ltb 0 r.samples

abbrev pub no_samples : Row → Bool
no_samples r = r.samples == 0

abbrev pub is_known : Option ℕ → Bool
is_known none = false
is_known (some a) = true

abbrev pub ratable : Row → Bool
ratable r = is_known r.ratio_p50_vs_n1

abbrev pub is_full : Row → Bool
is_full r = ltb 0 r.streams_attempted && r.samples == r.streams_attempted

abbrev pub is_partial : Row → Bool
is_partial r = ltb 0 r.samples && ltb r.samples r.streams_attempted

abbrev pub is_true : Option Bool → Bool
is_true none = false
is_true (some b) = b

abbrev pub is_flat : Row → Bool
is_flat r = is_true r.flat

abbrev pub ratios : List Row → List ℕ
ratios [] = []
ratios (r ∷ rs) = let rest = ratios rs in elim r.ratio_p50_vs_n1 [ none ↦ rest | some a ↦ a ∷ rest ]

-- `max(values)` of a list that is not empty
abbrev pub greatest : ℕ → List ℕ → ℕ
greatest m [] = m
greatest m (x ∷ xs) = greatest (if ltb m x then x else m) xs

-- The part of a verdict that needs a ratio. The ratios are in thousandths, and so is the fraction.
pub record Flatness : Type 0 where
  pub flat_queries : ℕ
  pub flat_fraction : ℕ
  pub worst_ratio : ℕ
  pub median_ratio : Option ℕ

pub record Verdict : Type 0 where
  pub queries_total : ℕ
  pub queries_with_any_sample : ℕ
  pub queries_with_full_completion : ℕ
  pub queries_with_no_samples : ℕ
  pub no_sample_query_ids : List String
  pub ratable_queries : ℕ
  pub flatness : Option Flatness

abbrev rounded_median : Option ℕ → Option ℕ
rounded_median none = none
rounded_median (some m) = some (round_ratio m 100)

unfoldable pub flatness_of : List Row → List ℕ → Option Flatness
flatness_of ratable_rows [] = none
flatness_of ratable_rows (a ∷ rest) = some (record {
  flat_queries = count_if is_flat ratable_rows;
  flat_fraction = round_ratio (1000 * count_if is_flat ratable_rows) (length ratable_rows);
  worst_ratio = greatest a rest;
  median_ratio = rounded_median (percentile (a ∷ rest) 50);
})

unfoldable pub verdict : List Row → Verdict
unfolding flatness_of
verdict n_rows_all =
    let ratable_rows = keep ratable n_rows_all in
    record {
      queries_total = length n_rows_all;
      queries_with_any_sample = length (keep has_samples n_rows_all);
      queries_with_full_completion = count_if is_full n_rows_all;
      queries_with_no_samples = length (keep no_samples n_rows_all);
      no_sample_query_ids =
          take 25 (sorted name_le (map (λ r. r.query_id) (keep no_samples n_rows_all)));
      ratable_queries = length ratable_rows;
      flatness = flatness_of ratable_rows (ratios ratable_rows);
    }

abbrev with_verdict : ℕ → List Row → Dict ℕ Verdict → Dict ℕ Verdict
with_verdict n [] by_n = by_n
with_verdict n (r ∷ rs) by_n = insert n (verdict (r ∷ rs)) by_n

-- The loop of `write_json` over the concurrencies.
unfoldable pub verdict_by_n : List Row → List ℕ → Dict ℕ Verdict → Dict ℕ Verdict
unfolding verdict
verdict_by_n rows [] by_n = by_n
verdict_by_n rows (n ∷ ns) by_n = verdict_by_n rows ns (with_verdict n (keep (is_at n) rows) by_n)

-- A line of the table of `write_md`.
pub record TableLine : Type 0 where
  pub n : ℕ
  pub streams : ℕ
  pub total : ℕ
  pub full : ℕ
  pub partial : ℕ
  pub no_stream : ℕ
  pub flat_of_ratable : Option (ℕ × ℕ)
  pub worst : Option ℕ
  pub median : Option ℕ

abbrev flat_count : List Row → List ℕ → Option (ℕ × ℕ)
flat_count rows [] = none
flat_count rows (a ∷ rest) = some (count_if is_flat rows, length rows)

abbrev worst_of : List ℕ → Option ℕ
worst_of [] = none
worst_of (a ∷ rest) = some (greatest a rest)

unfoldable pub table_line : List Row → Dict ℕ ℕ → ℕ → TableLine
table_line rows expected_streams n =
    let n_rows = keep (is_at n) rows in
    let ratable_rows = keep ratable n_rows in
    record {
      n = n;
      streams = lookup_or n 0 expected_streams;
      total = length n_rows;
      full = count_if is_full n_rows;
      partial = count_if is_partial n_rows;
      no_stream = count_if no_samples n_rows;
      flat_of_ratable = flat_count ratable_rows (ratios ratable_rows);
      worst = worst_of (ratios ratable_rows);
      median = rounded_median (percentile (ratios ratable_rows) 50);
    }

-- By the query's name, then by the concurrency.
abbrev place_le : Row → Row → Bool
place_le r s = if r.query_id == s.query_id then leb r.n s.n else name_le r.query_id s.query_id

unfoldable pub no_sample_rows : List Row → List Row
no_sample_rows rows = sorted place_le (keep no_samples rows)

abbrev pub exceeds : Option ℕ → Bool
exceeds none = false
exceeds (some ratio) = ltb 1100 ratio

abbrev pub is_offender : Row → Bool
is_offender r = ltb 1 r.n && exceeds r.ratio_p50_vs_n1

-- `reverse=True` keeps equal elements in their order.
abbrev worse : Option ℕ → Option ℕ → Bool
worse none b = true
worse (some a) none = true
worse (some a) (some b) = leb b a

unfoldable pub offenders : List Row → List Row
offenders rows = sorted (λ r s. worse r.ratio_p50_vs_n1 s.ratio_p50_vs_n1) (keep is_offender rows)

-- What the two lists show.
abbrev pub shown_offenders : List Row → List Row
shown_offenders rows = take 20 (offenders rows)

abbrev pub shown_no_sample_rows : List Row → List Row
shown_no_sample_rows rows = take 40 (no_sample_rows rows)
