-- ===== src/Examples/Graphs.antt =====
-- The records of a small graph run, and its report.
use delta_forge_benchmarks.Common.{
  ℕ, ◌≡◌, Bool, true, false, any, Option, none, some, List, [], ◌∷◌, map, contains, leb, nat_eq,
  list_eq, pair_eq, if◌then◌else◌,
}
use delta_forge_benchmarks.Common.Dict.{lookup}
use delta_forge_benchmarks.Common.Text.{codes}
use delta_forge_benchmarks.Workloads.Graph.Steps.{Device, cpu, gpu, step_id, measured_steps}
use delta_forge_benchmarks.Published.Graph.StepId.{StepKey, parse_step_id}
use delta_forge_benchmarks.Published.Graph.Schedule.{schedule, measured_steps-schedule}
use delta_forge_benchmarks.Published.Graph.Records.{Line, device_eq, load_df_records}
use delta_forge_benchmarks.Published.Graph.Records.Laws.{
  warm_times, is_run_at, lookup-load_df_records,
}
use delta_forge_benchmarks.Stats.Percentile.{median}
use delta_forge_benchmarks.Steps.{number}

measured_steps-schedule_example :
    map (λ s. parse_step_id s.id) (measured_steps (1 ∷ 30 ∷ [])) ≡ map some (schedule (1 ∷ 30 ∷ []))
measured_steps-schedule_example = measured_steps-schedule (1 ∷ 30 ∷ [])

abbrev key : StepKey
key = (codes "wcc", (5, gpu))

abbrev line : Device → ℕ → Bool → Line
line device ms cold = record {
  step_id = some (step_id (codes "wcc") 5 device);
  engine_reported_ms = some ms;
  wall_ms = some 9000;
  error = none;
  cold = cold;
  extra = some ((codes "cypher.gpu.compute_ms", number 700) ∷ []);
}

abbrev lines : List Line
lines = line cpu 6000 false ∷ line gpu 8000 true ∷ line gpu 3000 false ∷ line gpu 5000 false ∷ []

lookup-load_df_records_example :
    let records = load_df_records lines in
    (lookup key records.warm ≡ median (warm_times key lines))
    × (contains records.sizes 5 ≡ any (is_run_at 5) lines)
lookup-load_df_records_example = lookup-load_df_records key 5 lines

abbrev cpu_ms : ℕ → Option ℕ
cpu_ms m = some 400

-- Faster than the CPU on the greater graphs only.
abbrev gpu_ms : ℕ → Option ℕ
gpu_ms m = if leb 5 m then some 300 else some 500
