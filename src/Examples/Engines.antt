-- ===== src/Examples/Engines.antt =====
-- Steps on a small machine whose state is its clock, in microseconds.
use mathlib.Core.List.Perm
use delta_forge_benchmarks.Common.{
  ℕ, ◌+◌, ◌≡◌, ◌≢◌, refl, Bool, true, false, none, some, String, List, [], ◌∷◌, All, map, length,
  ◌⊎◌, if◌then◌else◌, ltb, ◌*◌, ◌==◌, nat_eq, list_eq, arith,
}
use delta_forge_benchmarks.Common.Text.{Text, codes, grouped}
use delta_forge_benchmarks.Steps.{sql_query, sql_dml, StepKind, WorkloadStep}
use delta_forge_benchmarks.Steps.Workload.{Workload}
use delta_forge_benchmarks.Workloads.Digest.{Cell, null, hash_result_rows}
use delta_forge_benchmarks.Runner.Run.{returned, run_workload}
use delta_forge_benchmarks.Engines.Output.{stats_num, try_parse_cli_json}
use delta_forge_benchmarks.Engines.Output.Separators.{stats_num-grouped}
use delta_forge_benchmarks.Engines.Metrics.{
  Poll, tree, gone, read, skipped, no_process, rounds, sampled, average, megabytes, cpu_total,
}
use delta_forge_benchmarks.Engines.Metrics.Laws.{seen, Below, reached, sampled_rounds}
use delta_forge_benchmarks.Engines.Frame.{Machine, ok, err, other}
use delta_forge_benchmarks.Engines.Frame
use delta_forge_benchmarks.Engines.Duckdb.{Connection}
use delta_forge_benchmarks.Engines.Duckdb
use delta_forge_benchmarks.Engines.Spark.{Session}
use delta_forge_benchmarks.Engines.Spark
use delta_forge_benchmarks.Engines.Agreement.{duckdb_agrees_with_spark}
use delta_forge_benchmarks.Engines.Df.{split_sql_statements, has_code}
use delta_forge_benchmarks.Engines.Df.Walk.{StatsRow, Reply, rows_of, plain_number}
use delta_forge_benchmarks.Engines.Df.Reported.{told_ms, told_rows}
use delta_forge_benchmarks.Engines.Df.Step.{Cli, exited, stats_sql, or_zero, is_empty, run_step}
use delta_forge_benchmarks.Engines.Df.Start.{Platform, Settings, Environ, AdapterState, start}
use delta_forge_benchmarks.Engines.Df.Engine.{Around, df_host}
use delta_forge_benchmarks.Engines.Df.Measured.{Replied, run_step_measured}
use delta_forge_benchmarks.Engines.Df.Scripts.{AllAnswered, run_step_script}
use delta_forge_benchmarks.Engines.Df.Waiting.{RunsOn, start_ends}
use delta_forge_benchmarks.Engines.Df.Unhashed.{Outcome, run_workload-Outcome}

abbrev machine : Machine ℕ
machine = record {
  perf_counter = λ w. w;
  repr = λ e. codes "error";
  repr_text = λ t. t;
  call_fn = λ w fn. (w, ok tt);
  sampling = λ a b. no_process;
}

abbrev cell : Text → Text → Text → StatsRow
cell category metric value = record {
  category = some category;
  metric = some metric;
  value = some value;
}

abbrev reply : Reply
reply = record {
  execution_time_ms = some 4000;
  rows = some (
      cell (codes "time") (codes "total_time_ms") (codes "85.452")
      ∷ cell (codes "rows") (codes "rows_returned") (codes "7")
      ∷ []);
}

-- A client that takes five microseconds and answers everything.
abbrev cli : Cli ℕ
cli = record {
  machine = machine;
  loads = λ t. if t == codes "{}" then some reply else none;
  run_cli_query =
      λ w sql. (w + 5, ok (record { returncode = exited 0; stdout = codes "{}"; stderr = [] }));
}

abbrev step : StepKind → WorkloadStep
step kind = record {
  id = "q1";
  kind = kind;
  sql = some (codes "open t;\nselect 1");
  per_engine_sql = none;
  per_engine_kind = none;
  fn = none;
  description = "";
  measured = true;
  expects_rows = true;
}

run_step_measured_example :
    let (w', r) = run_step cli false 0 (step sql_query) in
    (sql : Text) × (p : Text) × (ps : List Text) × (reply : Reply) × ((step sql_query).sql
      ≡ some sql)
    × (split_sql_statements sql ≡ p ∷ ps)
    × Replied cli (stats_sql p ps) 0 w' reply
    × (r.engine_reported_ms ≡ told_ms (rows_of reply))
    × (r.rows_returned ≡ some (or_zero (told_rows (rows_of reply))))
unfolding run_step list_eq nat_eq has_code try_parse_cli_json
run_step_measured_example = run_step_measured cli false 0 (step sql_query) refl refl

run_step_script_example :
    let (w', r) = run_step cli false 0 (step sql_dml) in
    (sql : Text) × (ms : ℕ) × (told : Bool) × ((step sql_dml).sql ≡ some sql)
    × (is_empty (split_sql_statements sql) ≡ false)
    × AllAnswered cli (split_sql_statements sql) 0 w' ms told
    × (r.engine_reported_ms ≡ (if told then some ms else none))
unfolding run_step list_eq nat_eq has_code try_parse_cli_json
run_step_script_example = run_step_script cli false 0 (step sql_dml) refl refl

abbrev environ : Environ
environ = record {
  df_cli_path = none;
  df_control_url = none;
  df_username = none;
  df_password = none;
  delta_forge_admin_password = none;
  df_platform_bin = none;
  which_cli = none;
  which_pgrep = none;
}

-- The control plane never answers, and each pause takes a second.
abbrev platform : Platform ℕ
platform = record {
  cli = cli;
  environ = environ;
  health = λ w. (w + 1000, err (Frame.PyException.other (codes "refused")));
  sleep = λ w. w + 1000000;
  pgrep = λ w pattern. (w, err (Frame.PyException.other []));
  version = λ w. (w, err (Frame.PyException.other []));
}

abbrev account : Settings
account = record {
  cli_path = codes "delta-forge-cli";
  control_url = codes "http://127.0.0.1:3000";
  username = codes "admin";
  password = some (codes "secret");
}

abbrev ticks : RunsOn platform
ticks = record { health = λ w. omega arith; sleep = λ w. omega arith }

start_ends_example : (start platform 121 account 0).1 ≢ none
start_ends_example = start_ends platform ticks account 0

abbrev around : Around ℕ
around = record {
  cold_purge_fn = none;
  now = λ w. "now";
  load = λ w. (w, returned tt);
  version_info = λ state. "{}";
}

abbrev workload : Workload
workload = record {
  name = "w";
  description = "";
  catalog_setup_steps = [];
  setup_steps = step sql_dml ∷ [];
  measured_steps = step sql_query ∷ [];
  cleanup_steps = [];
  cold_runs = 1;
  warm_runs = 2;
  requires_data_at_scale = none;
  applicable_engines = none;
  data_subdir = [];
  requires_input_data = false;
}

abbrev idle : AdapterState
idle = record { worker_pid = none; cli_version = none }

run_workload-Outcome_example :
    All
      (λ r. Outcome r.exit_code r.error × (r.result_sha256 ≡ none))
      (run_workload (df_host platform around) workload (codes "/d") 1 (0, idle) []).0.records
run_workload-Outcome_example =
    run_workload-Outcome platform around workload (codes "/d") 1 (0, idle) []

abbrev rows : List (List Cell)
rows = (Cell.other (codes "1") ∷ null ∷ []) ∷ (Cell.other (codes "2") ∷ []) ∷ []

abbrev swapped : List (List Cell)
swapped = (Cell.other (codes "2") ∷ []) ∷ (Cell.other (codes "1") ∷ null ∷ []) ∷ []

abbrev sha256 : Text → String
sha256 t = if is_empty t then "e3b0" else "a1b2"

abbrev conn : Connection ℕ
conn = record {
  machine = machine;
  execute = λ w sql. (w + 3, ok tt);
  fetchall = λ w. (w + 1, ok rows);
  sha256 = sha256;
}

abbrev session : Session ℕ
session = record {
  machine = machine;
  collect = λ w sql. (
    w + 9,
    ok (record { rows = swapped; phases = record { duration_ms = 2 ∷ 3 ∷ []; broken = false } }),
  );
  sha256 = sha256;
}

duckdb_agrees_with_spark_example :
    let d = (Duckdb.run_step conn true true 0 (step sql_query)).1 in
    let s = (Spark.run_step session true true 4 (step sql_query)).1 in
    (d.exit_code ≡ 0)
    × (s.exit_code ≡ 0)
    × (d.rows_returned ≡ some (length rows))
    × (s.rows_returned ≡ d.rows_returned)
    × (d.result_sha256 ≡ some (hash_result_rows conn.sha256 rows).0)
    × (s.result_sha256 ≡ d.result_sha256)
duckdb_agrees_with_spark_example =
    duckdb_agrees_with_spark conn session (step sql_query) (codes "open t;\nselect 1") 0 4 rows
      (record { rows = swapped; phases = record { duration_ms = 2 ∷ 3 ∷ []; broken = false } }) refl
      refl refl refl refl refl refl
      (Perm.swap (Cell.other (codes "2") ∷ []) (Cell.other (codes "1") ∷ null ∷ []) [])

stats_num-grouped_example :
    (stats_num (some (grouped 1234567)) ≡ some (1234567 * 1000))
    × (plain_number (some (grouped 1234567))
        ≡ (if ltb 1234567 1000 then some (1234567 * 1000) else none))
stats_num-grouped_example = stats_num-grouped 1234567

-- A process with a child, which is then gone, and then the end of the process.
abbrev polls : List Poll
polls =
    tree (read (some 3000000) (some 500) ∷ read (some 5000000) none ∷ [])
    ∷ tree (read (some 4000000) (some 700) ∷ skipped ∷ [])
    ∷ gone
    ∷ []

sampled_rounds_example :
    (peak : ℕ) × Below peak (seen polls)
    × ((peak ≡ 0) ⊎ (reached peak (seen polls) ≡ true))
    × ((sampled (rounds polls true)).peak_rss_mb ≡ some (megabytes peak))
    × ((sampled (rounds polls true)).avg_cpu_pct ≡ average (map cpu_total (seen polls)))
sampled_rounds_example = sampled_rounds polls true
