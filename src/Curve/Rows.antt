-- ===== src/Curve/Rows.antt =====
-- `aggregate` of scale_out/aggregate.py. Timings are in microseconds and percentiles in hundredths of
-- that; the arithmetic is that of the exact numbers, and `round` takes a half to the even neighbour.
pub mod Round
pub mod Coverage
pub mod Laws
use delta_forge_benchmarks.Common.{
  ℕ, zero, suc, ◌+◌, ◌*◌, ◌/◌, ◌%◌, Bool, true, false, Option, none, some, List, [], ◌∷◌, ◌++◌,
  String, leb, ltb, if◌then◌else◌, ◌==◌, nat_eq, string_eq, pair_eq, length,
}
use delta_forge_benchmarks.Common.Dict.{Dict, keys, lookup, lookup_or, insert}
use delta_forge_benchmarks.Common.Sort.{sorted}
use delta_forge_benchmarks.Common.Text.{codes, text_le}
use delta_forge_benchmarks.Stats.Percentile.{Ms, percentile, round_ratio}

-- A query at a concurrency.
abbrev pub SampleKey : Type 0
SampleKey = String × ℕ

abbrev pub Samples : Type 0
Samples = Dict SampleKey (List Ms)

abbrev pub samples_of : Samples → String → ℕ → List Ms
samples_of samples qid n = lookup_or (qid, n) [] samples

-- `p50_ms`, `p95_ms` and the baseline are in hundredths of a millisecond, the rate and the ratio in
-- thousandths.
pub record Row : Type 0 where
  pub query_id : String
  pub n : ℕ
  pub samples : ℕ
  pub streams_attempted : ℕ
  pub completion_rate : ℕ
  pub p50_ms : Option ℕ
  pub p95_ms : Option ℕ
  pub p50_baseline_n1_ms : Option ℕ
  pub ratio_p50_vs_n1 : Option ℕ
  pub flat : Option Bool

abbrev pub with_baseline : String → Option ℕ → Dict String ℕ → Dict String ℕ
with_baseline qid none base = base
with_baseline qid (some p) base = insert qid p base

-- The loop that builds `baseline_p50`.
unfoldable pub baselines : Samples → List String → Dict String ℕ
baselines samples [] = []
baselines samples (qid ∷ qids) =
    with_baseline qid (percentile (samples_of samples qid 1) 50) (baselines samples qids)

abbrev pub two_places : Option ℕ → Option ℕ
two_places none = none
two_places (some p) = some (round_ratio p 1000)

-- `base and base > 0`
abbrev pub usable : Option ℕ → Option ℕ → Option (ℕ × ℕ)
usable none base = none
usable (some p) none = none
usable (some p) (some base) = if base == 0 then none else some (p, base)

abbrev pub ratio_of : Option (ℕ × ℕ) → Option ℕ
ratio_of none = none
ratio_of (some (p, base)) = some (round_ratio (1000 * p) base)

-- `ratio <= FLATNESS_THRESHOLD`, on the ratio that is not rounded
abbrev pub flat_of : Option (ℕ × ℕ) → Option Bool
flat_of none = none
flat_of (some (p, base)) = some (leb (100 * p) (110 * base))

unfoldable pub row : Samples → Dict String ℕ → String → ℕ → ℕ → Row
unfolding round_ratio
row samples baseline_p50 qid n attempted =
    let vals = samples_of samples qid n in
    let p50 = percentile vals 50 in
    let base = lookup qid baseline_p50 in
    record {
      query_id = qid;
      n = n;
      samples = length vals;
      streams_attempted = attempted;
      completion_rate = if attempted == 0 then 0 else round_ratio (1000 * length vals) attempted;
      p50_ms = two_places p50;
      p95_ms = two_places (percentile vals 95);
      p50_baseline_n1_ms = two_places base;
      ratio_p50_vs_n1 = ratio_of (usable p50 base);
      flat = flat_of (usable p50 base);
    }

unfoldable pub rows_of_query : Samples → Dict String ℕ → Dict ℕ ℕ → String → List ℕ → List Row
unfolding row
rows_of_query samples baseline_p50 expected_streams qid [] = []
rows_of_query samples baseline_p50 expected_streams qid (n ∷ ns) =
    row samples baseline_p50 qid n (lookup_or n 0 expected_streams)
    ∷ rows_of_query samples baseline_p50 expected_streams qid ns

unfoldable pub rows_of : Samples → Dict String ℕ → Dict ℕ ℕ → List String → List ℕ → List Row
unfolding rows_of_query
rows_of samples baseline_p50 expected_streams [] ns = []
rows_of samples baseline_p50 expected_streams (qid ∷ qids) ns =
    rows_of_query samples baseline_p50 expected_streams qid ns
    ++ rows_of samples baseline_p50 expected_streams qids ns

abbrev pub name_le : String → String → Bool
name_le a b = text_le (codes a) (codes b)

unfoldable pub aggregate : Samples → Dict ℕ ℕ → List String → List Row
unfolding baselines rows_of
aggregate samples expected_streams all_query_ids =
    rows_of samples (baselines samples all_query_ids) expected_streams
      (sorted name_le all_query_ids) (sorted leb (keys expected_streams))
