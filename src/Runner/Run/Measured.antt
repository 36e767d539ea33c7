-- ===== src/Runner/Run/Measured.antt =====
-- The schedule of a workload, and the measured loop of `run_workload` against it.
use mathlib.Core.List.{append-nil}
use delta_forge_benchmarks.Common.{
  ℕ, zero, suc, ◌+◌, ◌*◌, ◌≡◌, refl, sym, ap, Bool, true, false, List, [], ◌∷◌, ◌++◌, map, ltb,
  arith, range, range_from, length, length-append, length-map,
}
use delta_forge_benchmarks.Common.Text.{Text}
use delta_forge_benchmarks.Steps.{WorkloadStep, StepResult}
use delta_forge_benchmarks.Steps.Workload.{Workload}
use delta_forge_benchmarks.Runner.Run.{
  Attempt, raised, returned, Host, RunState, make_record, resolved, purge_if_cold, record_attempt,
  run_once, run_repeats, run_measured,
}
use delta_forge_benchmarks.Runner.Run.Progress.{Label, Progress, Progress-none, Progress-continue}

module _ {W : Type 0} (host : Host W) (workload : Workload) (data_dir : Text) (sf : ℕ) where
  abbrev label_of : WorkloadStep → ℕ → Label
  label_of step i = (step.id, i, ltb i workload.cold_runs)

  -- Every measured step, and for each the runs 0, 1, ..., of which the first `cold_runs` are cold.
  abbrev pub schedule : List WorkloadStep → List Label
  schedule [] = []
  schedule (step ∷ steps) =
      map (label_of step) (range (workload.cold_runs + workload.warm_runs)) ++ schedule steps

  purge_if_cold-cold :
      (cold : Bool) (w : W)
      → (purge_if_cold host workload data_dir sf cold w).1 ≡ true
      → cold ≡ true
  unfolding purge_if_cold
  purge_if_cold-cold true w h = refl
  purge_if_cold-cold false w h = cc

  record_attempt-Progress :
      (step : WorkloadStep) (i : ℕ) (verified : Bool) (st : RunState W) (w : W)
      (a : Attempt StepResult)
      → (verified ≡ true → ltb i workload.cold_runs ≡ true)
      → let (st', ending) =
          record_attempt host workload data_dir sf step i
            (ltb i workload.cold_runs)
            verified
            st
            w
            a in
        Progress st st' (label_of step i ∷ []) ending
  unfolding record_attempt make_record
  record_attempt-Progress step i verified st w raised h = record {
    new = [];
    left = label_of step i ∷ [];
    jsonl = sym (append-nil st.jsonl);
    records = sym (append-nil st.records);
    labels = refl;
    complete = λ e. cc;
    purged = refl;
    past_setup = λ e. cc;
  }
  record_attempt-Progress step i verified st w (returned result) h = record {
    new =
        make_record host workload data_dir sf step i (ltb i workload.cold_runs) verified result
          (host.now w)
        ∷ [];
    left = [];
    jsonl = refl;
    records = refl;
    labels = refl;
    complete = λ e. refl;
    purged = ground arith;
    past_setup = λ e. cc;
  }

  run_once-Progress :
      (step : WorkloadStep) (i : ℕ) (st : RunState W)
      → let (st', ending) = run_once host workload data_dir sf step i st in
        Progress st st' (label_of step i ∷ []) ending
  unfolding run_once
  run_once-Progress step i st =
      let cold = ltb i workload.cold_runs in
      let (w, verified) = purge_if_cold host workload data_dir sf cold st.world in
      let (w', attempt) = host.run_step w (resolved host workload data_dir sf step) in
      record_attempt-Progress step i verified st w' attempt (purge_if_cold-cold cold st.world)

  run_repeats-Progress :
      (step : WorkloadStep) (is : List ℕ) (st : RunState W)
      → let (st', ending) = run_repeats host workload data_dir sf step is st in
        Progress st st' (map (label_of step) is) ending
  unfolding run_repeats
  run_repeats-Progress step [] st = Progress-none st
  run_repeats-Progress step (i ∷ is) st =
      let first = run_once host workload data_dir sf step i st in
      Progress-continue st first (run_repeats host workload data_dir sf step is first.0)
        (label_of step i ∷ []) (map (label_of step) is) (run_once-Progress step i st)
        (run_repeats-Progress step is first.0)

  pub run_measured-Progress :
      (steps : List WorkloadStep) (st : RunState W)
      → let (st', ending) = run_measured host workload data_dir sf steps st in
        Progress st st' (schedule steps) ending
  unfolding run_measured
  run_measured-Progress [] st = Progress-none st
  run_measured-Progress (step ∷ steps) st =
      let runs = range (workload.cold_runs + workload.warm_runs) in
      let first = run_repeats host workload data_dir sf step runs st in
      Progress-continue st first (run_measured host workload data_dir sf steps first.0)
        (map (label_of step) runs) (schedule steps) (run_repeats-Progress step runs st)
        (run_measured-Progress steps first.0)

  length-range_from : (i n : ℕ) → length (range_from i n) ≡ n
  length-range_from i zero = refl
  length-range_from i (suc n) = ap suc (length-range_from (suc i) n)

  -- As many runs as there are steps, times the runs of each.
  pub length-schedule :
      (steps : List WorkloadStep)
      → length (schedule steps) ≡ length steps * (workload.cold_runs + workload.warm_runs)
  length-schedule [] = omega arith
  length-schedule (step ∷ steps) =
      let runs = workload.cold_runs + workload.warm_runs in
      omega (
        arith,
        length-append (map (label_of step) (range runs)) (schedule steps),
        length-map (label_of step) (range runs),
        length-range_from 0 runs,
        length-schedule steps,
      )
