-- ===== src/Examples/Runs.antt =====
-- Runs of a small workload, selections, sessions and menus.
use Prim.Native.Nat.{ℕ}
use delta_forge_benchmarks.Common.{
  true, false, any, string_eq, ◌+◌, ◌*◌, ◌≤◌, ◌≡◌, ◌↔◌, refl, ◌&&◌, Option, none, some, List, [],
  ◌∷◌, ◌++◌, String, map, all, length, contains, if◌then◌else◌, ◌==◌, nat_eq, list_eq,
}
use delta_forge_benchmarks.Common.Dict.{lookup}
use delta_forge_benchmarks.Common.Text.{codes}
use delta_forge_benchmarks.Steps.{sql_query, WorkloadStep, StepResult, ColdStartMetrics}
use delta_forge_benchmarks.Steps.Workload.{Workload}
use delta_forge_benchmarks.Purge.{
  verified, exited, file, directory, other, chunk, connected, Surroundings, purge_for_cold_run,
  socket_path, strip,
}
use delta_forge_benchmarks.Purge.Laws.{IsCleared, Acknowledged, verified_iff}
use delta_forge_benchmarks.Runner.Run.{
  returned, Host, run_setup, run_workload, run_measured, run_repeats, run_once, record_attempt,
  run_cleanup,
}
use delta_forge_benchmarks.Runner.Run.Progress.{Label, label, purged_if_cold}
use delta_forge_benchmarks.Runner.Run.Measured.{schedule}
use delta_forge_benchmarks.Runner.Run.Laws.{jsonl-run_workload, run_workload_finished}
use delta_forge_benchmarks.Runner.Run.Total.{run_workload-ending}
use delta_forge_benchmarks.Runner.Preflight.{HostFacts}
use delta_forge_benchmarks.Runner.Select.{
  RunArgs, pos, names_of, is_unknown, no_runs, overridden, select, set_cold,
}
use delta_forge_benchmarks.Runner.Select.Laws.{title, select-accepted}
use delta_forge_benchmarks.Runner.Session.{Engine, Fragment, run_session}
use delta_forge_benchmarks.Runner.Session.Laws.{run_session-same}
use delta_forge_benchmarks.Runner.Merge.{merge}
use delta_forge_benchmarks.Runner.Merge.Laws.{version_told, lookup-merge}
use delta_forge_benchmarks.Runner.Menu.{engine_presets, run_menu}
use delta_forge_benchmarks.Runner.Menu.Laws.{run_menu-valid}

abbrev step : String → WorkloadStep
step name = record {
  id = name;
  kind = sql_query;
  sql = some (codes "select 1");
  per_engine_sql = none;
  per_engine_kind = none;
  fn = none;
  description = "";
  measured = true;
  expects_rows = true;
}

abbrev workload : List WorkloadStep → Workload
workload setup = record {
  name = "w";
  description = "";
  catalog_setup_steps = [];
  setup_steps = setup;
  measured_steps = step "q1" ∷ step "q2" ∷ [];
  cleanup_steps = [];
  cold_runs = 1;
  warm_runs = 1;
  requires_data_at_scale = none;
  applicable_engines = none;
  data_subdir = [];
  requires_input_data = false;
}

abbrev result : ℕ → String → StepResult
result code name = record {
  step_id = name;
  wall_ms = 7;
  engine_reported_ms = none;
  rss_peak_mb = none;
  cpu_pct_avg = none;
  rows_returned = none;
  result_sha256 = none;
  exit_code = code;
  error = none;
  extra = none;
}

-- A host that counts its calls and gives every step this exit code.
abbrev host : ℕ → Host ℕ
host code = record {
  engine_name = "df";
  run_step = λ w s. (w + 1, returned (result code s.id));
  cold_purge_fn = none;
  now = λ w. "now";
}

jsonl-run_workload_example :
    let st = (run_workload (host 0) (workload []) [] 1 0 []).0 in
    (left : List Label) × (st.jsonl ≡ [] ++ st.records)
    × (map label st.records ++ left
        ≡ schedule (host 0) (workload []) [] 1 (workload []).measured_steps)
    × (all purged_if_cold st.records ≡ true)
jsonl-run_workload_example = jsonl-run_workload (host 0) (workload []) [] 1 0 []

run_workload_finished_example :
    let records = (run_workload (host 0) (workload []) [] 1 0 []).0.records in
    (map label records ≡ schedule (host 0) (workload []) [] 1 (workload []).measured_steps)
    × (length records ≡ 2 * (1 + 1))
unfolding run_workload run_setup run_measured run_repeats run_once record_attempt run_cleanup
run_workload_finished_example = run_workload_finished (host 0) (workload []) [] 1 0 [] refl

run_workload-ending_example :
    (run_workload (host 0) (workload []) [] 1 0 []).1
    ≡ (run_setup (host 0) (workload []) [] 1 [] 0).1
run_workload-ending_example =
    run_workload-ending (host 0) (workload []) [] 1 (λ w s. (result 0 s.id, refl)) 0 []

abbrev os : Surroundings
os = record {
  run_pkill = λ pat. exited 0 [];
  tmp = some (file false ∷ directory true ∷ directory false ∷ other ∷ []);
  env = none;
  sidecar = λ path. connected (chunk (codes "DROPCACHES_OK") ∷ []);
  elapsed = 3;
}

verified_iff_example :
    let (result, left) = purge_for_cold_run os (codes "java" ∷ []) none in
    (verified result ≡ true)
    ↔ (IsCleared os.tmp left × Acknowledged (os.sidecar (socket_path none os.env)))
verified_iff_example = verified_iff os (codes "java" ∷ []) none

abbrev facts : HostFacts
facts = record { cgroup_memory_max_mb = some 4096; mem_total_kb = none; wsl2 = true }

abbrev args : RunArgs
args = record {
  workloads = some (codes "w");
  engines = some (codes "df");
  cold_runs = some (pos 2);
  warm_runs = none;
}

select-accepted_example :
    (map title (set_cold 2 (workload []) ∷ []) ≡ names_of (codes "w"))
    × (any is_unknown (codes "df" ∷ []) ≡ false)
    × ((overridden args && any no_runs (set_cold 2 (workload []) ∷ [])) ≡ false)
unfolding select names_of strip nat_eq list_eq
select-accepted_example =
    select-accepted (workload [] ∷ []) args b'w' [] (set_cold 2 (workload []) ∷ [])
      (codes "df" ∷ []) refl refl

abbrev cold : ColdStartMetrics
cold = record { import_to_session_ready_ms = 5; session_to_first_query_ms = 6 }

abbrev engine : Engine ℕ
engine = record {
  host = host 0;
  load = λ w. (w, returned tt);
  start = λ w. (w, returned cold);
  version_info = λ w. returned "1.0";
  stop = λ w. (w, returned tt);
}

abbrev fragment : Fragment
fragment = record { engine_version = some "1.0"; cold_start = some cold }

run_session-same_example :
    (run_session engine (λ wl. codes "/d") 1 (workload [] ∷ []) 0 []).jsonl
    ≡ (run_session engine (λ wl. codes "/d") 1 (workload [] ∷ []) 0 []).records
unfolding run_session
run_session-same_example =
    run_session-same engine (λ wl. codes "/d") 1 (λ w s. (result 0 s.id, refl)) (workload [] ∷ []) 0
      [] fragment refl

abbrev fragment_of : String → Option Fragment
fragment_of name = if name == "df" then some fragment else none

lookup-merge_example :
    lookup "df"
      (merge fragment_of
        ("duckdb" ∷ "df" ∷ [])
        (record { engine_versions = []; cold_starts = [] })).engine_versions
    ≡ (if contains {A = String} ("duckdb" ∷ "df" ∷ []) "df"
        then version_told (fragment_of "df")
        else none)
lookup-merge_example = lookup-merge fragment_of "df" ("duckdb" ∷ "df" ∷ [])

run_menu-valid_example :
    let choice = run_menu (codes "w") [] (codes "9" ∷ codes "1" ∷ codes "-3" ∷ []) in
    (1 ≤ choice.scale) × (contains engine_presets choice.engines ≡ true)
run_menu-valid_example = run_menu-valid (codes "w") [] (codes "9" ∷ codes "1" ∷ codes "-3" ∷ [])
