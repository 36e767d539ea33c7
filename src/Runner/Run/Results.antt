-- ===== src/Runner/Run/Results.antt =====
-- What the results of an engine say carries over to the records of a run.
use delta_forge_benchmarks.Common.{
  ℕ, ◌+◌, ◌≡◌, refl, ap, Bool, List, [], ◌∷◌, ◌++◌, String, range, ltb, All,
}
use delta_forge_benchmarks.Common.Text.{Text}
use delta_forge_benchmarks.Steps.{WorkloadStep, StepResult}
use delta_forge_benchmarks.Steps.Workload.{Workload}
use delta_forge_benchmarks.Runner.Run.{
  StepRecord, Attempt, raised, returned, Host, RunState, Ending, finished, setup_failed, crashed,
  continue_with, finish, after_setup, run_setup, run_measured, run_workload, resolved,
  purge_if_cold, make_record, append_record, record_attempt, run_once, run_repeats,
}

All-concat {ℓ} :
    {A : Type ℓ} (P : A → Type 0) (xs : List A) (x : A) → All P xs → P x → All P (xs ++ x ∷ [])
All-concat P [] x h p = (p, tt)
All-concat P (y ∷ ys) x (q, h) p = (q, All-concat P ys x h p)

module _ {W : Type 0} (host : Host W) (workload : Workload) (data_dir : Text) (sf : ℕ)
    (P : StepRecord → Type 0)
    (holds : (w : W) (step resolved_step : WorkloadStep) (r : StepResult) (i : ℕ)
        (cold purged : Bool) (t : String)
      → (host.run_step w resolved_step).1 ≡ returned r
      → P (make_record host workload data_dir sf step i cold purged r t)) where
  record_attempt-All :
      (step : WorkloadStep) (i : ℕ) (cold purged : Bool) (st : RunState W) (w : W)
      (s : WorkloadStep) (out : W × Attempt StepResult)
      → host.run_step w s ≡ out
      → All P st.records
      → All P (record_attempt host workload data_dir sf step i cold purged st out.0 out.1).0.records
  unfolding record_attempt append_record
  record_attempt-All step i cold purged st w s (w', raised) e h = h
  record_attempt-All step i cold purged st w s (w', returned r) e h =
      All-concat P st.records _ h (holds w step s r i cold purged (host.now w') (ap (λ t. t.1) e))

  run_once-All :
      (step : WorkloadStep) (i : ℕ) (st : RunState W)
      → All P st.records
      → All P (run_once host workload data_dir sf step i st).0.records
  unfolding run_once
  run_once-All step i st h =
      let (w, purged) =
        purge_if_cold host workload data_dir sf (ltb i workload.cold_runs) st.world in
      record_attempt-All step i (ltb i workload.cold_runs) purged st w
        (resolved host workload data_dir sf step)
        (host.run_step w (resolved host workload data_dir sf step)) refl h

  continue-All :
      (first more : RunState W × Ending)
      → All P first.0.records
      → (All P first.0.records → All P more.0.records)
      → All P (continue_with first more).0.records
  continue-All (st, finished) more h k = k h
  continue-All (st, setup_failed) more h k = h
  continue-All (st, crashed) more h k = h

  run_repeats-All :
      (step : WorkloadStep) (is : List ℕ) (st : RunState W)
      → All P st.records
      → All P (run_repeats host workload data_dir sf step is st).0.records
  unfolding run_repeats
  run_repeats-All step [] st h = h
  run_repeats-All step (i ∷ is) st h =
      continue-All (run_once host workload data_dir sf step i st) _ (run_once-All step i st h)
        (run_repeats-All step is (run_once host workload data_dir sf step i st).0)

  run_measured-All :
      (steps : List WorkloadStep) (st : RunState W)
      → All P st.records
      → All P (run_measured host workload data_dir sf steps st).0.records
  unfolding run_measured
  run_measured-All [] st h = h
  run_measured-All (step ∷ steps) st h =
      let runs = range (workload.cold_runs + workload.warm_runs) in
      continue-All (run_repeats host workload data_dir sf step runs st) _
        (run_repeats-All step runs st h)
        (run_measured-All steps (run_repeats host workload data_dir sf step runs st).0)

  finish-All :
      (out : RunState W × Ending)
      → All P out.0.records
      → All P (finish host workload data_dir sf out).0.records
  finish-All (st, finished) h = h
  finish-All (st, setup_failed) h = h
  finish-All (st, crashed) h = h

  pub run_workload-All :
      (w : W) (jsonl : List StepRecord)
      → All P (run_workload host workload data_dir sf w jsonl).0.records
  unfolding run_workload
  run_workload-All w jsonl = by_setup (run_setup host workload data_dir sf workload.setup_steps w)
    where
      by_setup : (s : W × Ending) → All P (after_setup host workload data_dir sf jsonl s).0.records
      by_setup (w, finished) =
          finish-All
            (run_measured host workload data_dir sf workload.measured_steps
              (record { world = w; jsonl = jsonl; records = [] }))
            (run_measured-All workload.measured_steps
              (record { world = w; jsonl = jsonl; records = [] }) tt)
      by_setup (w, setup_failed) = tt
      by_setup (w, crashed) = tt
