-- ===== src/Examples/Curves.antt =====
-- The scale-out curve of a few streams.
use delta_forge_benchmarks.Common.{
  ℕ, ◌≡◌, refl, Bool, true, false, none, some, List, [], ◌∷◌, leb, map, all, nat_eq, list_eq,
  string_eq,
}
use delta_forge_benchmarks.Common.Dict.{Dict, keys, lookup}
use delta_forge_benchmarks.Common.Sort.{sorted}
use delta_forge_benchmarks.Common.Text.{Text, codes}
use delta_forge_benchmarks.Steps.{sql_query}
use delta_forge_benchmarks.Runner.Run.{StepRecord}
use delta_forge_benchmarks.Curve.Streams.{parse_stream_dir, timestamp}
use delta_forge_benchmarks.Curve.Streams.RoundTrip.{parse_stream_dir-stream_dir, stream_dir}
use delta_forge_benchmarks.Curve.Timings.{
  load_query_timings, last_warm_run, first_run, or_else, lookup-load_query_timings,
}
use delta_forge_benchmarks.Curve.Rows.{Samples, samples_of, Row, aggregate, name_le}
use delta_forge_benchmarks.Curve.Rows.Coverage.{pairs, place, places-aggregate}
use delta_forge_benchmarks.Curve.Rows.Laws.{
  percentiles_ordered, percentiles_ordered-aggregate, flat_fits_ratio, flat_fits_ratio-aggregate,
}
use delta_forge_benchmarks.Curve.Main.{DirEntry, collect, nothing_collected}
use delta_forge_benchmarks.Curve.Main.Laws.{timings_at, samples-collect}

abbrev ts : Text
ts = codes "20260101T000000Z"

parse_stream_dir-stream_dir_example : parse_stream_dir (stream_dir 8 ts 3) ≡ some (8, (ts, 3))
unfolding timestamp nat_eq
parse_stream_dir-stream_dir_example = parse_stream_dir-stream_dir 8 3 ts refl

abbrev line : Bool → ℕ → StepRecord
line cold wall = record {
  workload = "w";
  engine = "df";
  step_id = "q";
  step_kind = sql_query;
  step_description = "";
  run_idx = 0;
  cold = cold;
  purge_verified = false;
  wall_ms = wall;
  engine_reported_ms = none;
  rss_peak_mb = none;
  cpu_pct_avg = none;
  rows_returned = none;
  result_sha256 = none;
  exit_code = 0;
  error = none;
  extra = none;
  timestamp_utc = "now";
}

abbrev records : List StepRecord
records = line true 30 ∷ line false 20 ∷ []

lookup-load_query_timings_example :
    lookup "q" (load_query_timings records)
    ≡ or_else (last_warm_run "q" records) (first_run "q" records)
lookup-load_query_timings_example = lookup-load_query_timings "q" records

abbrev entries : List DirEntry
entries = record { name = stream_dir 1 ts 0; is_dir = true; jsonl = (codes "r", records) ∷ [] } ∷ []

samples-collect_example :
    samples_of (collect ts (1 ∷ []) entries nothing_collected).samples "q" 1
    ≡ timings_at ts (1 ∷ []) "q" 1 entries
samples-collect_example = samples-collect ts (1 ∷ []) "q" 1 entries

-- At a concurrency of 2 the query takes 1.5 times as long.
abbrev samples : Samples
samples = (("q", 1), 20 ∷ []) ∷ (("q", 2), 30 ∷ 30 ∷ []) ∷ []

abbrev streams : Dict ℕ ℕ
streams = (1, 1) ∷ (2, 2) ∷ []

abbrev rows : List Row
rows = aggregate samples streams ("q" ∷ [])

places-aggregate_example :
    map place rows ≡ pairs (sorted name_le ("q" ∷ [])) (sorted leb (keys streams))
places-aggregate_example = places-aggregate samples streams ("q" ∷ [])

percentiles_ordered-aggregate_example : all percentiles_ordered rows ≡ true
percentiles_ordered-aggregate_example = percentiles_ordered-aggregate samples streams ("q" ∷ [])

flat_fits_ratio-aggregate_example : all flat_fits_ratio rows ≡ true
flat_fits_ratio-aggregate_example = flat_fits_ratio-aggregate samples streams ("q" ∷ [])
