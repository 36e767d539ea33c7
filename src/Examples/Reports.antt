-- ===== src/Examples/Reports.antt =====
-- The report on a few records, and the percentiles of a few timings.
use mathlib.Core.Option.{some-injective, none-ne-some}
use delta_forge_benchmarks.Common.{
  Bool, true, false, sym, ◌∙◌, if◌then◌else◌, ℕ, ◌≡◌, refl, none, some, List, [], ◌∷◌, String, keep,
  arith, nat_eq, string_eq, pair_eq,
}
use delta_forge_benchmarks.Common.Dict.{Dict, lookup, values}
use delta_forge_benchmarks.Steps.{sql_query}
use delta_forge_benchmarks.Runner.Run.{StepRecord}
use delta_forge_benchmarks.Stats.Percentile.{percentile, report_percentile}
use delta_forge_benchmarks.Stats.Laws.{percentile-eq-report_percentile}
use delta_forge_benchmarks.Report.{CellKey, StepKey, CellStats, cellize, correctness_check}
use delta_forge_benchmarks.Report.Cells.{is_run_of, cell_of_runs, lookup-cellize}
use delta_forge_benchmarks.Report.Completeness.{no_issue-correctness_check}
use delta_forge_benchmarks.Report.Agreement.{hash_for, agree-correctness_check}

percentile-eq-report_percentile_example :
    percentile (5 ∷ 3 ∷ 9 ∷ []) 95 ≡ report_percentile (5 ∷ 3 ∷ 9 ∷ []) 95
percentile-eq-report_percentile_example =
    percentile-eq-report_percentile (5 ∷ 3 ∷ 9 ∷ []) 95 (omega arith)

abbrev digest : String
digest = "ab"

abbrev line : String → String → ℕ → StepRecord
line engine sha code = record {
  workload = "w";
  engine = engine;
  step_id = "q";
  step_kind = sql_query;
  step_description = "";
  run_idx = 0;
  cold = false;
  purge_verified = false;
  wall_ms = 12;
  engine_reported_ms = none;
  rss_peak_mb = none;
  cpu_pct_avg = none;
  rows_returned = some 3;
  result_sha256 = some sha;
  exit_code = code;
  error = none;
  extra = none;
  timestamp_utc = "now";
}

abbrev records : List StepRecord
records = line "df" digest 0 ∷ line "duckdb" digest 0 ∷ line "df" "cd" 1 ∷ []

abbrev df_key : CellKey
df_key = ("w", ("df", "q"))

lookup-cellize_example :
    lookup ("w", ("df", "q")) (cellize records)
    ≡ cell_of_runs "w" "df" "q" (keep (is_run_of "w" "df" "q") records)
lookup-cellize_example = lookup-cellize "w" "df" "q" records

abbrev cell_with : String → String → CellStats
cell_with engine sha = record {
  workload = "w";
  engine = engine;
  step_id = "q";
  cold_ms = [];
  warm_ms = [];
  failures = 0;
  rows_returned = [];
  result_sha256 = some sha;
}

abbrev cells : Dict CellKey CellStats
cells = (df_key, cell_with "df" digest) ∷ (("w", ("duckdb", "q")), cell_with "duckdb" digest) ∷ []

agree-correctness_check_example : digest ≡ digest
unfolding correctness_check nat_eq string_eq pair_eq
agree-correctness_check_example =
    agree-correctness_check cells ("w", "q") "df" "duckdb" digest digest refl refl refl

two_tests :
    (a b : Bool) (h : String)
    → (if a then (if b then some digest else none) else none) ≡ some h
    → h ≡ digest
two_tests true true h p = sym (some-injective digest h p)
two_tests true false h p = elim (none-ne-some h p) [ ]
two_tests false b h p = elim (none-ne-some h p) [ ]

abbrev one_cell : Dict CellKey CellStats
one_cell = (df_key, cell_with "df" digest) ∷ []

same_digest :
    (step : StepKey) (e h : String) → hash_for step e (values one_cell) ≡ some h → h ≡ digest
unfolding string_eq
same_digest step e h p = two_tests _ _ h p

no_issue-correctness_check_example : correctness_check one_cell ≡ []
no_issue-correctness_check_example =
    no_issue-correctness_check one_cell
      (λ step e f h k p q. same_digest step e h p ∙ sym (same_digest step f k q))
