-- ===== src/Runner/Run/Laws.antt =====
-- What a run leaves in the line file and in the list it returns, however it ends.
use delta_forge_benchmarks.Common.{
  ℕ, ◌+◌, ◌*◌, ◌≡◌, ◌≢◌, refl, sym, ap, ◌∙◌, true, List, [], ◌∷◌, ◌++◌, map, arith, length, all,
  length-map,
}
use mathlib.Core.List.{append-nil}
use delta_forge_benchmarks.Common.Text.{Text}
use delta_forge_benchmarks.Steps.{WorkloadStep}
use delta_forge_benchmarks.Steps.Workload.{Workload}
use delta_forge_benchmarks.Runner.Run.{
  StepRecord, Host, RunState, Ending, finished, setup_failed, crashed, finish, after_setup,
  run_setup, run_cleanup, run_workload, resolved,
}
use delta_forge_benchmarks.Runner.Run.Progress.{
  Label, label, PurgedIfCold, Progress, purged_if_cold,
}
use delta_forge_benchmarks.Runner.Run.Measured.{schedule, length-schedule, run_measured-Progress}

-- The records are in the file behind what it held before, and they are the first runs of the schedule, in
-- order: all of them when the run finished, none when a setup step failed.
pub record IsAccounted {W : Type 0} (old : List StepRecord) (todo : List Label)
    (out : RunState W × Ending) : Type 0 where
  pub left : List Label
  pub jsonl : out.0.jsonl ≡ old ++ out.0.records
  pub labels : map label out.0.records ++ left ≡ todo
  pub complete : out.1 ≡ finished → left ≡ []
  pub no_setup : out.1 ≡ setup_failed → out.0.records ≡ []
  pub purged : PurgedIfCold out.0.records

module _ {W : Type 0} (host : Host W) (workload : Workload) (data_dir : Text) (sf : ℕ) where
  run_cleanup-past_setup :
      (steps : List WorkloadStep) (w : W)
      → (run_cleanup host workload data_dir sf steps w).1 ≢ setup_failed
  unfolding run_cleanup
  run_cleanup-past_setup [] w e = cc
  run_cleanup-past_setup (step ∷ steps) w e = ground (
    arith,
    run_cleanup-past_setup steps w,
    run_cleanup-past_setup steps (host.run_step w (resolved host workload data_dir sf step)).0,
  )

  -- The records of the measured loop, begun with an empty list.
  finish-IsAccounted :
      (old : List StepRecord) (w : W) (todo : List Label) (out : RunState W × Ending)
      → Progress (record { world = w; jsonl = old; records = [] }) out.0 todo out.1
      → IsAccounted old todo (finish host workload data_dir sf out)
  finish-IsAccounted old w todo (st, finished) p = record {
    left = p.left;
    jsonl = p.jsonl ∙ ap (λ l. old ++ l) (sym p.records);
    labels = ap (λ l. map label l ++ p.left) p.records ∙ p.labels;
    complete = λ e. p.complete refl;
    no_setup = λ e. absurd (run_cleanup-past_setup workload.cleanup_steps st.world e);
    purged = rw p.records p.purged;
  }
  finish-IsAccounted old w todo (st, setup_failed) p = absurd (p.past_setup refl)
  finish-IsAccounted old w todo (st, crashed) p = record {
    left = p.left;
    jsonl = p.jsonl ∙ ap (λ l. old ++ l) (sym p.records);
    labels = ap (λ l. map label l ++ p.left) p.records ∙ p.labels;
    complete = λ e. cc;
    no_setup = λ e. cc;
    purged = rw p.records p.purged;
  }

  after_setup-IsAccounted :
      (old : List StepRecord) (s : W × Ending)
      → IsAccounted old
          (schedule host workload data_dir sf workload.measured_steps)
          (after_setup host workload data_dir sf old s)
  after_setup-IsAccounted old (w, finished) = finish-IsAccounted old w _ _ (
      run_measured-Progress host workload data_dir sf workload.measured_steps
        (record { world = w; jsonl = old; records = [] }))
  after_setup-IsAccounted old (w, setup_failed) = record {
    left = schedule host workload data_dir sf workload.measured_steps;
    jsonl = sym (append-nil old);
    labels = refl;
    complete = λ e. cc;
    no_setup = λ e. refl;
    purged = refl;
  }
  after_setup-IsAccounted old (w, crashed) = record {
    left = schedule host workload data_dir sf workload.measured_steps;
    jsonl = sym (append-nil old);
    labels = refl;
    complete = λ e. cc;
    no_setup = λ e. cc;
    purged = refl;
  }

  pub run_workload-IsAccounted :
      (w : W) (jsonl : List StepRecord)
      → IsAccounted jsonl
          (schedule host workload data_dir sf workload.measured_steps)
          (run_workload host workload data_dir sf w jsonl)
  unfolding run_workload
  run_workload-IsAccounted w jsonl =
      after_setup-IsAccounted jsonl (run_setup host workload data_dir sf workload.setup_steps w)

  -- However a run ends, by an exception or a failed setup too, the line file holds what it held before
  -- and then all the records of the run; these are the first runs of the schedule, in its order, and
  -- only cold runs among them are marked as purged.
  pub jsonl-run_workload :
      (w : W) (jsonl : List StepRecord)
      → let st = (run_workload host workload data_dir sf w jsonl).0 in
        (left : List Label) × (st.jsonl ≡ jsonl ++ st.records)
        × (map label st.records ++ left
            ≡ schedule host workload data_dir sf workload.measured_steps)
        × (all purged_if_cold st.records ≡ true)
  jsonl-run_workload w jsonl =
      let a = run_workload-IsAccounted w jsonl in (a.left, a.jsonl, a.labels, a.purged)

  -- A run that finishes has one record for each run of the schedule, in order, `cold_runs + warm_runs`
  -- for each measured step.
  pub run_workload_finished :
      (w : W) (jsonl : List StepRecord)
      → (run_workload host workload data_dir sf w jsonl).1 ≡ finished
      → let records = (run_workload host workload data_dir sf w jsonl).0.records in
        (map label records ≡ schedule host workload data_dir sf workload.measured_steps)
        × (length records
            ≡ length workload.measured_steps * (workload.cold_runs + workload.warm_runs))
  run_workload_finished w jsonl done =
      let a = run_workload-IsAccounted w jsonl in
      let records = (run_workload host workload data_dir sf w jsonl).0.records in
      let whole : map label records ≡ schedule host workload data_dir sf workload.measured_steps =
        sym (append-nil (map label records))
        ∙ ap (λ l. map label records ++ l) (sym (a.complete done))
        ∙ a.labels in
      (
        whole,
        sym (length-map label records)
            ∙ ap length whole
            ∙ length-schedule host workload data_dir sf workload.measured_steps,
      )
