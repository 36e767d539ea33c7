-- ===== src/Report/Tables.antt =====
-- What reports/generate_report.py writes: the rows of summary.csv, the tables of report.md, and the ends
-- of its `main`. The standard deviation and the run's context are left out, and the layout.
use delta_forge_benchmarks.Common.{
  ℕ, ◌*◌, Bool, Option, none, some, List, [], ◌∷◌, ◌++◌, String, map, if◌then◌else◌, ◌==◌,
  string_eq, keep, length, contains,
}
use delta_forge_benchmarks.Common.Dict.{Dict, values}
use delta_forge_benchmarks.Common.Sort.{sorted}
use delta_forge_benchmarks.Common.Text.{Text, codes, text_le}
use delta_forge_benchmarks.Stats.Percentile.{round_ratio}
use delta_forge_benchmarks.Steps.{ColdStartMetrics}
use delta_forge_benchmarks.Runner.Run.{StepRecord}
use delta_forge_benchmarks.Report.{
  CellKey, CellStats, warm_min, warm_median, warm_mean, warm_p95, cold_median, cellize, Issue,
  correctness_check,
}

-- `f"{x:.2f}"` and `f"{x:.1f}"` of milliseconds; `none` is printed as nan.
abbrev rounded_to : ℕ → Option ℕ → Option ℕ
rounded_to unit none = none
rounded_to unit (some a) = some (round_ratio a unit)

abbrev mean_to : ℕ → Option (ℕ × ℕ) → Option ℕ
mean_to unit none = none
mean_to unit (some (total, n)) = some (round_ratio total (unit * n))

-- A row of summary.csv; the statistics are in hundredths of a millisecond.
pub record SummaryRow : Type 0 where
  pub workload : String
  pub step_id : String
  pub engine : String
  pub cold_median_ms : Option ℕ
  pub warm_min_ms : Option ℕ
  pub warm_median_ms : Option ℕ
  pub warm_p95_ms : Option ℕ
  pub warm_mean_ms : Option ℕ
  pub warm_n : ℕ
  pub cold_n : ℕ
  pub failures : ℕ
  pub result_sha256 : String

-- `c.result_sha256 or ""`
abbrev sha_or_empty : Option String → String
sha_or_empty none = ""
sha_or_empty (some h) = h

unfoldable pub summary_row : CellStats → SummaryRow
summary_row c = record {
  workload = c.workload;
  step_id = c.step_id;
  engine = c.engine;
  cold_median_ms = rounded_to 1000 (cold_median c);
  warm_min_ms = rounded_to 1000 (warm_min c);
  warm_median_ms = rounded_to 1000 (warm_median c);
  warm_p95_ms = rounded_to 1000 (warm_p95 c);
  warm_mean_ms = mean_to 10 (warm_mean c);
  warm_n = length c.warm_ms;
  cold_n = length c.cold_ms;
  failures = c.failures;
  result_sha256 = sha_or_empty c.result_sha256;
}

abbrev name_le : String → String → Bool
name_le a b = text_le (codes a) (codes b)

-- `key=lambda c: (c.step_id, c.engine)`
abbrev pub line_le : CellStats → CellStats → Bool
line_le c d =
    if c.step_id == d.step_id then name_le c.engine d.engine else name_le c.step_id d.step_id

-- `key=lambda c: (c.workload, c.step_id, c.engine)`
abbrev pub cell_le : CellStats → CellStats → Bool
cell_le c d = if c.workload == d.workload then line_le c d else name_le c.workload d.workload

unfoldable pub summary_rows : Dict CellKey CellStats → List SummaryRow
unfolding summary_row
summary_rows cells = map summary_row (sorted cell_le (values cells))

-- A line of a table of report.md; the statistics are in tenths of a millisecond.
pub record ReportLine : Type 0 where
  pub step_id : String
  pub engine : String
  pub cold_median_ms : Option ℕ
  pub warm_median_ms : Option ℕ
  pub warm_p95_ms : Option ℕ
  pub warm_mean_ms : Option ℕ
  pub warm_n : ℕ
  pub failures : ℕ

unfoldable pub report_line : CellStats → ReportLine
report_line c = record {
  step_id = c.step_id;
  engine = c.engine;
  cold_median_ms = rounded_to 10000 (cold_median c);
  warm_median_ms = rounded_to 10000 (warm_median c);
  warm_p95_ms = rounded_to 10000 (warm_p95 c);
  warm_mean_ms = mean_to 100 (warm_mean c);
  warm_n = length c.warm_ms;
  failures = c.failures;
}

abbrev add_name : String → List String → List String
add_name name names = if contains names name then names else name ∷ names

-- `{c.workload for c in cells.values()}`
abbrev pub workload_names : List CellStats → List String
workload_names [] = []
workload_names (c ∷ cs) = add_name c.workload (workload_names cs)

-- The table of a workload.
unfoldable pub table : Dict CellKey CellStats → String → List ReportLine
unfolding report_line
table cells wl = map report_line (sorted line_le (keep (λ c. c.workload == wl) (values cells)))

pub record ReportMd : Type 0 where
  pub cold_starts : List (String × ColdStartMetrics)
  pub disagreements : List Issue
  pub tables : List (String × List ReportLine)

abbrev start_le : String × ColdStartMetrics → String × ColdStartMetrics → Bool
start_le (a, _) (b, _) = name_le a b

unfoldable pub write_report_md :
    Dict CellKey CellStats → Dict String ColdStartMetrics → List Issue → ReportMd
unfolding table
write_report_md cells cold_starts correctness_issues = record {
  cold_starts = sorted start_le cold_starts;
  disagreements = correctness_issues;
  tables = map (λ wl. (wl, table cells wl)) (sorted name_le (workload_names (values cells)));
}

-- A file of `raw`, with the records of its lines that are not blank.
pub record RawFile : Type 0 where
  pub name : Text
  pub records : List StepRecord

abbrev raw_le : RawFile → RawFile → Bool
raw_le f g = text_le f.name g.name

abbrev pub all_records : List RawFile → List StepRecord
all_records [] = []
all_records (f ∷ fs) = f.records ++ all_records fs

unfoldable pub load_records : List RawFile → List StepRecord
load_records files = all_records (sorted raw_le files)

-- How `main` ends, for a results directory that is there or not, its manifest and its raw files.
pub data ReportOutcome : Type 0 where
  not_a_directory no_manifest no_records : ReportOutcome
  written : List SummaryRow → ReportMd → ReportOutcome

abbrev report_on : List StepRecord → Dict String ColdStartMetrics → ReportOutcome
report_on [] cold_starts = no_records
report_on (r ∷ rs) cold_starts =
    let cells = cellize (r ∷ rs) in
    written (summary_rows cells) (write_report_md cells cold_starts (correctness_check cells))

abbrev with_manifest : Option (Dict String ColdStartMetrics) → List RawFile → ReportOutcome
with_manifest none files = no_manifest
with_manifest (some cold_starts) files = report_on (load_records files) cold_starts

unfoldable pub report_main :
    Bool → Option (Dict String ColdStartMetrics) → List RawFile → ReportOutcome
unfolding load_records
report_main is_dir manifest files = if is_dir then with_manifest manifest files else not_a_directory
