-- ===== src/Runner/Run/Total.antt =====
-- The ends of `run_workload` with an engine that never raises.
use delta_forge_benchmarks.Common.{ℕ, ◌+◌, ◌≡◌, refl, List, [], ◌∷◌, arith, range, ltb}
use delta_forge_benchmarks.Common.Text.{Text}
use delta_forge_benchmarks.Steps.{WorkloadStep, StepResult}
use delta_forge_benchmarks.Steps.Workload.{Workload}
use delta_forge_benchmarks.Runner.Run.{
  StepRecord, returned, Host, RunState, Ending, finished, setup_failed, crashed, finish,
  after_setup, run_setup, run_measured, run_cleanup, run_workload, resolved, purge_if_cold,
  record_attempt, run_once, run_repeats,
}

-- `run_step` gives a result in every state; an adapter puts its errors into the result.
abbrev pub NeverRaises : {W : Type 0} → Host W → Type 0
NeverRaises {W} host =
    (w : W) (step : WorkloadStep) → (r : StepResult) × ((host.run_step w step).1 ≡ returned r)

module _ {W : Type 0} (host : Host W) (workload : Workload) (data_dir : Text) (sf : ℕ)
    (total : NeverRaises host) where
  run_once-finished :
      (step : WorkloadStep) (i : ℕ) (st : RunState W)
      → (run_once host workload data_dir sf step i st).1 ≡ finished
  unfolding run_once record_attempt
  run_once-finished step i st =
      let w = (purge_if_cold host workload data_dir sf (ltb i workload.cold_runs) st.world).0 in
      let (r, e) = total w (resolved host workload data_dir sf step) in rw (e, record_attempt)

  run_repeats-finished :
      (step : WorkloadStep) (is : List ℕ) (st : RunState W)
      → (run_repeats host workload data_dir sf step is st).1 ≡ finished
  unfolding run_repeats
  run_repeats-finished step [] st = refl
  run_repeats-finished step (i ∷ is) st =
      rw (run_once-finished step i st, run_repeats)
        (run_repeats-finished step is (run_once host workload data_dir sf step i st).0)

  run_measured-finished :
      (steps : List WorkloadStep) (st : RunState W)
      → (run_measured host workload data_dir sf steps st).1 ≡ finished
  unfolding run_measured
  run_measured-finished [] st = refl
  run_measured-finished (step ∷ steps) st =
      let runs = range (workload.cold_runs + workload.warm_runs) in
      rw (run_repeats-finished step runs st, run_measured)
        (run_measured-finished steps (run_repeats host workload data_dir sf step runs st).0)

  run_cleanup-finished :
      (steps : List WorkloadStep) (w : W)
      → (run_cleanup host workload data_dir sf steps w).1 ≡ finished
  unfolding run_cleanup
  run_cleanup-finished [] w = refl
  run_cleanup-finished (step ∷ steps) w = ground (
    arith,
    total w (resolved host workload data_dir sf step),
    run_cleanup-finished steps w,
    run_cleanup-finished steps (host.run_step w (resolved host workload data_dir sf step)).0,
  )

  finish-ending :
      (out : RunState W × Ending)
      → out.1 ≡ finished
      → (finish host workload data_dir sf out).1 ≡ finished
  finish-ending (st, finished) e = run_cleanup-finished workload.cleanup_steps st.world
  finish-ending (st, setup_failed) e = e
  finish-ending (st, crashed) e = e

  after_setup-ending :
      (jsonl : List StepRecord) (s : W × Ending)
      → (after_setup host workload data_dir sf jsonl s).1 ≡ s.1
  after_setup-ending jsonl (w, finished) =
      let st : RunState W = record { world = w; jsonl = jsonl; records = [] } in
      let out = run_measured host workload data_dir sf workload.measured_steps st in
      finish-ending out (run_measured-finished workload.measured_steps st)
  after_setup-ending jsonl (w, setup_failed) = refl
  after_setup-ending jsonl (w, crashed) = refl

  -- With an engine that never raises, whatever its results and its exit codes are, the whole run ends
  -- exactly as its loop over the setup steps does.
  pub run_workload-ending :
      (w : W) (jsonl : List StepRecord)
      → (run_workload host workload data_dir sf w jsonl).1
        ≡ (run_setup host workload data_dir sf workload.setup_steps w).1
  unfolding run_workload
  run_workload-ending w jsonl =
      after_setup-ending jsonl (run_setup host workload data_dir sf workload.setup_steps w)
