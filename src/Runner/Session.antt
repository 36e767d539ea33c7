-- ===== src/Runner/Session.antt =====
-- The child process of `cmd_run` in bench_runner.py: one engine, started, its catalog filled, its
-- workloads run and its manifest fragment written. Printing is left out.
pub mod Laws
use delta_forge_benchmarks.Common.{
  ℕ, Bool, true, false, not, Option, none, some, List, [], ◌∷◌, ◌++◌, String, if◌then◌else◌,
  contains, string_eq,
}
use delta_forge_benchmarks.Common.Text.{Text}
use delta_forge_benchmarks.Steps.{WorkloadStep, ColdStartMetrics}
use delta_forge_benchmarks.Steps.Workload.{Workload}
use delta_forge_benchmarks.Runner.Run.{
  StepRecord, Attempt, raised, returned, Host, RunState, Ending, finished, setup_failed, crashed,
  resolved, run_workload,
}

-- The adapter around the host of the runs: its class, which may fail to load, its start, its version and
-- its end.
pub record Engine (W : Type 0) : Type 0 where
  pub host : Host W
  pub load : W → W × Attempt {0} Unit
  pub start : W → W × Attempt ColdStartMetrics
  pub version_info : W → Attempt String
  pub stop : W → W × Attempt {0} Unit

-- `raw/<engine>.manifest.json`, of the engine that it is named for.
pub record Fragment : Type 0 where
  pub engine_version : Option String
  pub cold_start : Option ColdStartMetrics

-- What a child leaves: the state of the world, the lines of the engine's file, the number of records that
-- it reports, the fragment if it is written, and whether an exception ends it.
pub record SessionResult (W : Type 0) : Type 0 where
  pub world : W
  pub jsonl : List StepRecord
  pub records : List StepRecord
  pub fragment : Option Fragment
  pub ending : Ending

module _ {W : Type 0} (engine : Engine W) (data_dir_of : Workload → Text) (sf : ℕ) where
  unfoldable pub applies : Workload → Bool
  applies workload = elim workload.applicable_engines [
    | none ↦ true
    | some names ↦ contains names engine.host.engine_name
  ]

  abbrev has_sql : WorkloadStep → Bool
  has_sql step = elim step.sql [ none ↦ false | some _ ↦ true ]

  -- The catalog steps of a workload: a failed registration is only printed, an exception is not caught.
  unfoldable pub register_steps : Workload → List WorkloadStep → W → W × Ending
  unfolding resolved
  register_steps workload [] w = (w, finished)
  register_steps workload (step ∷ steps) w =
      let step' = resolved engine.host workload (data_dir_of workload) sf step in
      let skip = register_steps workload steps w in
      let (w', attempt) = engine.host.run_step w step' in
      let more = register_steps workload steps w' in
      if has_sql step' then (elim attempt [ raised ↦ (w', crashed) | returned _ ↦ more ]) else skip

  abbrev registered_then : W × Ending → (W → W × Ending) → W × Ending
  registered_then (w, finished) f = f w
  registered_then (w, setup_failed) f = (w, setup_failed)
  registered_then (w, crashed) f = (w, crashed)

  unfoldable pub register_all : List Workload → W → W × Ending
  unfolding register_steps applies
  register_all [] w = (w, finished)
  register_all (workload ∷ workloads) w =
      let skip = register_all workloads w in
      let more =
        registered_then (register_steps workload workload.catalog_setup_steps w)
          (λ w'. register_all workloads w') in
      if applies workload then more else skip

  -- `records.extend(run_workload(...))` in a `try`: the lines of a run that raised stay in the file, and
  -- its records are lost.
  abbrev pub keep_run : List StepRecord → RunState W × Ending → RunState W
  keep_run records (st, finished) = record st { records = records ++ st.records }
  keep_run records (st, setup_failed) = record st { records = records ++ st.records }
  keep_run records (st, crashed) = record st { records = records }

  unfoldable pub run_workloads : List Workload → RunState W → RunState W
  unfolding run_workload applies
  run_workloads [] st = st
  run_workloads (workload ∷ workloads) st =
      let skip = run_workloads workloads st in
      let more = run_workloads workloads (
        keep_run st.records
          (run_workload engine.host workload (data_dir_of workload) sf st.world st.jsonl)) in
      if applies workload then more else skip

  -- Before the start of the engine nothing is truncated and no fragment is written.
  abbrev pub not_started : W → List StepRecord → Ending → SessionResult W
  not_started w stale ending = record {
    world = w;
    jsonl = stale;
    records = [];
    fragment = none;
    ending = ending;
  }

  abbrev pub run_out : ColdStartMetrics → String → RunState W → SessionResult W
  run_out cold version st = record {
    world = (engine.stop st.world).0;
    jsonl = st.jsonl;
    records = st.records;
    fragment = some (record { engine_version = some version; cold_start = some cold });
    ending = finished;
  }

  abbrev pub registered : List Workload → ColdStartMetrics → String → W × Ending → SessionResult W
  registered workloads cold version (w, finished) =
      run_out cold version
        (run_workloads workloads (record { world = w; jsonl = []; records = [] }))
  registered workloads cold version (w, setup_failed) = not_started w [] setup_failed
  registered workloads cold version (w, crashed) = not_started w [] crashed

  abbrev pub versioned :
      List Workload → List StepRecord → ColdStartMetrics → W → Attempt String → SessionResult W
  versioned workloads stale cold w raised = not_started w stale crashed
  versioned workloads stale cold w (returned version) =
      registered workloads cold version (register_all workloads w)

  abbrev pub started :
      List Workload → List StepRecord → W × Attempt ColdStartMetrics → SessionResult W
  started workloads stale (w, raised) = not_started w stale finished
  started workloads stale (w, returned cold) =
      versioned workloads stale cold w (engine.version_info w)

  abbrev pub loaded : List Workload → List StepRecord → W × Attempt {0} Unit → SessionResult W
  loaded workloads stale (w, raised) = not_started w stale finished
  loaded workloads stale (w, returned _) = started workloads stale (engine.start w)

  -- The session, from the lines that the engine's file holds before it.
  unfoldable pub run_session : List Workload → W → List StepRecord → SessionResult W
  unfolding run_workloads register_all
  run_session workloads w stale = loaded workloads stale (engine.load w)
