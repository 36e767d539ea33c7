-- ===== src/Runner/Run.antt =====
-- `run_workload` of bench_runner.py. What the engine, the purge and the clock do is given by a host over
-- a state of its own; the line file of the engine is part of the state of a run. Printing is left out.
pub mod Progress
pub mod Measured
pub mod Laws
pub mod Total
pub mod Results
use delta_forge_benchmarks.Common.{
  ℕ, zero, suc, ◌+◌, Bool, true, false, ◌&&◌, Option, none, some, List, [], ◌∷◌, ◌++◌, String, ltb,
  if◌then◌else◌, ◌==◌, nat_eq, range,
}
use delta_forge_benchmarks.Common.Text.{Text}
use delta_forge_benchmarks.Common.Dict.{Dict}
use delta_forge_benchmarks.Steps.{StepKind, WorkloadStep, StepResult, Metric}
use delta_forge_benchmarks.Steps.Workload.{Workload}
use delta_forge_benchmarks.Purge.{PurgeResult, verified}
use delta_forge_benchmarks.Runner.Resolve.{resolve_step}

-- A line of `raw/<engine>.jsonl`.
pub record StepRecord : Type 0 where
  pub workload : String
  pub engine : String
  pub step_id : String
  pub step_kind : StepKind
  pub step_description : String
  pub run_idx : ℕ
  pub cold : Bool
  pub purge_verified : Bool
  pub wall_ms : ℕ
  pub engine_reported_ms : Option ℕ
  pub rss_peak_mb : Option ℕ
  pub cpu_pct_avg : Option ℕ
  pub rows_returned : Option ℕ
  pub result_sha256 : Option String
  pub exit_code : ℕ
  pub error : Option Text
  pub extra : Option (Dict Text Metric)
  pub timestamp_utc : String

-- A call that may raise.
pub data Attempt {ℓ} (A : Type ℓ) : Type ℓ where
  raised : Attempt A
  returned : A → Attempt A

-- The engine adapter, the purge hook if one is given, and the clock.
pub record Host (W : Type 0) : Type 0 where
  pub engine_name : String
  pub run_step : W → WorkloadStep → W × Attempt StepResult
  pub cold_purge_fn : Option (W → W × Attempt (Option PurgeResult))
  pub now : W → String

pub record RunState (W : Type 0) : Type 0 where
  pub world : W
  pub jsonl : List StepRecord
  pub records : List StepRecord

-- How a run ends: with all its steps, with a failed setup step, or by an exception.
pub data Ending : Type 0 where
  finished setup_failed crashed : Ending

-- An exception passes the rest of the loop over.
abbrev pub continue_with {ℓ} : {A : Type ℓ} → A × Ending → A × Ending → A × Ending
continue_with (a, finished) more = more
continue_with (a, setup_failed) more = (a, setup_failed)
continue_with (a, crashed) more = (a, crashed)

module _ {W : Type 0} (host : Host W) (workload : Workload) (data_dir : Text) (sf : ℕ) where
  unfoldable pub resolved : WorkloadStep → WorkloadStep
  resolved step = resolve_step step data_dir host.engine_name sf

  -- No text and no function for this engine.
  unfoldable pub inapplicable : WorkloadStep → Bool
  inapplicable step = elim step.sql [
    | none ↦ elim step.fn [ none ↦ true | some _ ↦ false ]
    | some _ ↦ false
  ]

  -- The loop over the setup steps.
  unfoldable pub run_setup : List WorkloadStep → W → W × Ending
  unfolding inapplicable resolved
  run_setup [] w = (w, finished)
  run_setup (step ∷ steps) w =
      let skip = run_setup steps w in
      if inapplicable (resolved step)
      then skip
      else (let (w', attempt) = host.run_step w (resolved step) in
          let rest = run_setup steps w' in
          elim attempt [
            | raised ↦ (w', crashed)
            | returned result ↦ if result.exit_code == 0 then rest else (w', setup_failed)
          ])

  -- The loop over the cleanup steps: exit codes are not looked at.
  unfoldable pub run_cleanup : List WorkloadStep → W → W × Ending
  unfolding inapplicable resolved
  run_cleanup [] w = (w, finished)
  run_cleanup (step ∷ steps) w =
      let skip = run_cleanup steps w in
      if inapplicable (resolved step)
      then skip
      else (let (w', attempt) = host.run_step w (resolved step) in
          let rest = run_cleanup steps w' in
          elim attempt [ raised ↦ (w', crashed) | returned _ ↦ rest ])

  -- `bool(purge_result and purge_result.verified)`, false after an exception
  abbrev pub is_verified : Attempt (Option PurgeResult) → Bool
  is_verified raised = false
  is_verified (returned none) = false
  is_verified (returned (some r)) = verified r

  abbrev purge_by : Option (W → W × Attempt (Option PurgeResult)) → W → W × Bool
  purge_by none w = (w, false)
  purge_by (some purge) w = let (w', attempt) = purge w in (w', is_verified attempt)

  unfoldable pub purge_if_cold : Bool → W → W × Bool
  purge_if_cold cold w = if cold then purge_by host.cold_purge_fn w else (w, false)

  unfoldable pub make_record : WorkloadStep → ℕ → Bool → Bool → StepResult → String → StepRecord
  make_record step run_idx cold purge_verified result timestamp = record {
    workload = workload.name;
    engine = host.engine_name;
    step_id = step.id;
    step_kind = step.kind;
    step_description = step.description;
    run_idx = run_idx;
    cold = cold;
    purge_verified = purge_verified;
    wall_ms = result.wall_ms;
    engine_reported_ms = result.engine_reported_ms;
    rss_peak_mb = result.rss_peak_mb;
    cpu_pct_avg = result.cpu_pct_avg;
    rows_returned = result.rows_returned;
    result_sha256 = result.result_sha256;
    exit_code = result.exit_code;
    error = result.error;
    extra = result.extra;
    timestamp_utc = timestamp;
  }

  -- `_append_record`: to the list and to the file.
  unfoldable pub append_record : StepRecord → RunState W → RunState W
  append_record r st = record st { jsonl = st.jsonl ++ r ∷ []; records = st.records ++ r ∷ [] }

  -- What the result of a run adds; `w` is the state of the host after it.
  unfoldable pub record_attempt :
      WorkloadStep → ℕ → Bool → Bool → RunState W → W → Attempt StepResult → RunState W × Ending
  unfolding append_record
  record_attempt step run_idx cold purge_verified st w raised = (record st { world = w }, crashed)
  record_attempt step run_idx cold purge_verified st w (returned result) = (
    append_record (make_record step run_idx cold purge_verified result (host.now w))
        (record st { world = w }),
    finished,
  )

  -- One run of one measured step.
  unfoldable pub run_once : WorkloadStep → ℕ → RunState W → RunState W × Ending
  unfolding resolved
  run_once step run_idx st =
      let cold = ltb run_idx workload.cold_runs in
      let (w, purge_verified) = purge_if_cold cold st.world in
      let (w', attempt) = host.run_step w (resolved step) in
      record_attempt step run_idx cold purge_verified st w' attempt

  -- `for run_idx in range(cold_runs + warm_runs)`, and the loop over the steps around it.
  unfoldable pub run_repeats : WorkloadStep → List ℕ → RunState W → RunState W × Ending
  run_repeats step [] st = (st, finished)
  run_repeats step (run_idx ∷ rest) st =
      let (st', ending) = run_once step run_idx st in
      let more = run_repeats step rest st' in continue_with (st', ending) more

  unfoldable pub run_measured : List WorkloadStep → RunState W → RunState W × Ending
  run_measured [] st = (st, finished)
  run_measured (step ∷ steps) st =
      let (st', ending) = run_repeats step (range (workload.cold_runs + workload.warm_runs)) st in
      let more = run_measured steps st' in continue_with (st', ending) more

  abbrev pub finish : RunState W × Ending → RunState W × Ending
  finish (st, finished) =
      let (w, ending) = run_cleanup workload.cleanup_steps st.world in
      (record st { world = w }, ending)
  finish (st, setup_failed) = (st, setup_failed)
  finish (st, crashed) = (st, crashed)

  abbrev pub after_setup : List StepRecord → W × Ending → RunState W × Ending
  after_setup jsonl (w, finished) =
      finish
        (run_measured workload.measured_steps (record { world = w; jsonl = jsonl; records = [] }))
  after_setup jsonl (w, setup_failed) =
      (record { world = w; jsonl = jsonl; records = [] }, setup_failed)
  after_setup jsonl (w, crashed) = (record { world = w; jsonl = jsonl; records = [] }, crashed)

  -- The whole run, from the lines that the file holds before it.
  unfoldable pub run_workload : W → List StepRecord → RunState W × Ending
  run_workload w jsonl = after_setup jsonl (run_setup workload.setup_steps w)
