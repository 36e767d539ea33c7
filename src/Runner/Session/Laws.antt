-- ===== src/Runner/Session/Laws.antt =====
-- What a session writes and what it reports.
use mathlib.Core.Option.{none-ne-some}
use delta_forge_benchmarks.Common.{
  ℕ, ◌≡◌, ◌≢◌, refl, sym, ap, ◌∙◌, some, List, String, [], ◌∷◌, ◌++◌, if_elim, arith,
}
use delta_forge_benchmarks.Common.Text.{Text}
use delta_forge_benchmarks.Steps.{WorkloadStep, ColdStartMetrics}
use delta_forge_benchmarks.Steps.Workload.{Workload}
use delta_forge_benchmarks.Runner.Run.{
  StepRecord, Attempt, raised, returned, RunState, Ending, finished, setup_failed, crashed,
  run_workload, run_setup, resolved,
}
use delta_forge_benchmarks.Runner.Run.Laws.{jsonl-run_workload}
use delta_forge_benchmarks.Runner.Run.Total.{NeverRaises, run_workload-ending}
use delta_forge_benchmarks.Runner.Session.{
  Engine, Fragment, applies, keep_run, run_workloads, run_session, loaded, started, versioned,
  registered, register_all,
}

module _ {W : Type 0} (engine : Engine W) (data_dir_of : Workload → Text) (sf : ℕ) where
  module _ (total : NeverRaises engine.host) where
    run_setup-not_crashed :
        (workload : Workload) (steps : List WorkloadStep) (w : W)
        → (run_setup engine.host workload (data_dir_of workload) sf steps w).1 ≢ crashed
    unfolding run_setup
    run_setup-not_crashed workload [] w e = cc
    run_setup-not_crashed workload (step ∷ steps) w e =
        let step' = resolved engine.host workload (data_dir_of workload) sf step in
        let (r, back) = total w step' in
        ground (
          arith,
          back,
          e,
          run_setup-not_crashed workload steps w,
          run_setup-not_crashed workload steps (engine.host.run_step w step').0,
        )

    kept_same :
        (records jsonl : List StepRecord) (out : RunState W × Ending)
        → jsonl ≡ records
        → out.1 ≢ crashed
        → out.0.jsonl ≡ jsonl ++ out.0.records
        → let st = keep_run engine data_dir_of sf records out in st.jsonl ≡ st.records
    kept_same records jsonl (st, finished) h n e = e ∙ ap (λ l. l ++ st.records) h
    kept_same records jsonl (st, setup_failed) h n e = e ∙ ap (λ l. l ++ st.records) h
    kept_same records jsonl (st, crashed) h n e = elim (n refl) [ ]

    run_workloads-same :
        (workloads : List Workload) (st : RunState W)
        → st.jsonl ≡ st.records
        → let out = run_workloads engine data_dir_of sf workloads st in out.jsonl ≡ out.records
    unfolding run_workloads
    run_workloads-same [] st h = h
    run_workloads-same (workload ∷ workloads) st h =
        let dir = data_dir_of workload in
        if_elim (λ (out : RunState W). out.jsonl ≡ out.records)
          (applies engine data_dir_of sf workload) _ _
          (λ _. run_workloads-same workloads _ (
            kept_same st.records st.jsonl
              (run_workload engine.host workload dir sf st.world st.jsonl) h
              (λ e.
                run_setup-not_crashed workload workload.setup_steps st.world (
                  sym (run_workload-ending engine.host workload dir sf total st.world st.jsonl)
                  ∙ e))
              (jsonl-run_workload engine.host workload dir sf st.world st.jsonl).1))
          (λ _. run_workloads-same workloads st h)

    -- With an engine that never raises, the file of a session that wrote its fragment has exactly the
    -- records that the session reports; nothing of an earlier session is left in it.
    pub run_session-same :
        (workloads : List Workload) (w : W) (stale : List StepRecord) (f : Fragment)
        → (run_session engine data_dir_of sf workloads w stale).fragment ≡ some f
        → (run_session engine data_dir_of sf workloads w stale).jsonl
          ≡ (run_session engine data_dir_of sf workloads w stale).records
    unfolding run_session
    run_session-same workloads w stale f = by_load (engine.load w)
      where
        by_registered :
            (cold : ColdStartMetrics) (version : String) (r : W × Ending)
            → let out = registered engine data_dir_of sf workloads cold version r in
              out.fragment ≡ some f → out.jsonl ≡ out.records
        by_registered cold version (w, finished) h =
            run_workloads-same workloads (record { world = w; jsonl = []; records = [] }) refl
        by_registered cold version (w, setup_failed) h = refl
        by_registered cold version (w, crashed) h = refl

        by_version :
            (cold : ColdStartMetrics) (w : W) (v : Attempt String)
            → let out = versioned engine data_dir_of sf workloads stale cold w v in
              out.fragment ≡ some f → out.jsonl ≡ out.records
        by_version cold w raised h = elim (none-ne-some f h) [ ]
        by_version cold w (returned v) h =
            by_registered cold v (register_all engine data_dir_of sf workloads w) h

        by_start :
            (s : W × Attempt ColdStartMetrics)
            → let out = started engine data_dir_of sf workloads stale s in
              out.fragment ≡ some f → out.jsonl ≡ out.records
        by_start (w, raised) h = elim (none-ne-some f h) [ ]
        by_start (w, returned cold) h = by_version cold w (engine.version_info w) h

        by_load :
            (l : W × Attempt {0} Unit)
            → let out = loaded engine data_dir_of sf workloads stale l in
              out.fragment ≡ some f → out.jsonl ≡ out.records
        by_load (w, raised) h = elim (none-ne-some f h) [ ]
        by_load (w, returned u) h = by_start (engine.start w) h
