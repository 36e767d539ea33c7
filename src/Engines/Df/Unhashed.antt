-- ===== src/Engines/Df/Unhashed.antt =====
-- The records of a run with the adapter of engines/df_engine.py.
use delta_forge_benchmarks.Common.{
  ℕ, ◌≡◌, refl, subst, ◌⊎◌, inl, inr, Bool, true, false, Option, none, some, List, [], ◌∷◌, ◌++◌,
  All,
}
use delta_forge_benchmarks.Common.Text.{Text, codes}
use delta_forge_benchmarks.Engines.Df.Engine.{Around, df_host, df_run_step, is_found}
use delta_forge_benchmarks.Engines.Df.Start.{Platform, AdapterState}
use delta_forge_benchmarks.Engines.Df.{split_sql_statements}
use delta_forge_benchmarks.Engines.Df.Step.{
  Cli, given, is_empty, kind_text, checked, checked_query, run_statements, report_script,
  script_text, script_step, require_time, keep_cypher, report_cypher, measure_cypher, cypher_step,
  query_script, keep_query, report_query, measure_query, query_text, query_step, step_body,
  run_step,
}
use delta_forge_benchmarks.Engines.Frame.{
  PyException, value_error, Frame, Result, ok, err, Action, pure, raise, or_raise, feed, ◌>>=◌,
  raise_if, call, initial, make_result, python_step,
}
use delta_forge_benchmarks.Runner.Run.{
  StepRecord, Attempt, raised, returned, make_record, run_workload,
}
use delta_forge_benchmarks.Runner.Run.Results.{run_workload-All}
use delta_forge_benchmarks.Steps.{
  StepKind, sql_query, sql_dml, sql_ddl, maintenance, python, cypher_query, cypher_dml,
  WorkloadStep, StepResult, Callable,
}
use delta_forge_benchmarks.Engines.Df.Walk.{Reply}
use delta_forge_benchmarks.Steps.Workload.{Workload}

-- The exit code 0 without an error, or 1 with one.
abbrev pub Outcome : ℕ → Option Text → Type 0
Outcome code error =
    ((code ≡ 0) × (error ≡ none)) ⊎ ((code ≡ 1) × (message : Text) × (error ≡ some message))

-- The body never sets a digest.
record Unhashed {W A : Type 0} (m : Action W A) : Type 0 where
  kept : (f : Frame W) → f.result_sha ≡ none → (m f).1.result_sha ≡ none

module _ {W : Type 0} where
  bind-Unhashed :
      {A B : Type 0} {m : Action W A} {k : A → Action W B}
      → Unhashed m
      → ((a : A) → Unhashed (k a))
      → Unhashed (m >>= k)
  bind-Unhashed {A} {m = m} {k = k} hm hk = record { kept = λ f e. by_result (m f) (hm.kept f e) }
    where
      by_result : (r : Result A × Frame W) → r.1.result_sha ≡ none → (feed k r).1.result_sha ≡ none
      by_result (ok a, f') e = (hk a).kept f' e
      by_result (err x, f') e = e

  or_raise-Unhashed :
      {A : Type 0} (o : Option A) (e : PyException) → Unhashed {W = W} (or_raise o e)
  or_raise-Unhashed none e = record { kept = λ f h. h }
  or_raise-Unhashed (some a) e = record { kept = λ f h. h }

  raise_if-Unhashed : (b : Bool) (e : PyException) → Unhashed {W = W} (raise_if b e)
  raise_if-Unhashed true e = record { kept = λ f h. h }
  raise_if-Unhashed false e = record { kept = λ f h. h }

  call-Unhashed : {A : Type 0} (run : W → W × Result A) → Unhashed (call run)
  call-Unhashed run = record { kept = λ f h. h }

  raise-Unhashed : {A : Type 0} (e : PyException) → Unhashed {W = W} {A = A} (raise e)
  raise-Unhashed e = record { kept = λ f h. h }

  pure-Unhashed : {A : Type 0} (a : A) → Unhashed {W = W} (pure a)
  pure-Unhashed a = record { kept = λ f h. h }

  module _ (cli : Cli W) where
    checked_query-Unhashed : (sql : Text) → Unhashed (checked_query cli sql)
    unfolding checked_query checked
    checked_query-Unhashed sql =
        bind-Unhashed (call-Unhashed (λ w. cli.run_cli_query w sql))
          (λ proc. bind-Unhashed (raise_if-Unhashed _ _) (λ _. pure-Unhashed proc.stdout))

    run_statements-Unhashed :
        (sqls : List Text) (n : ℕ) (b : Bool) → Unhashed (run_statements cli sqls n b)
    unfolding run_statements
    run_statements-Unhashed [] n b = pure-Unhashed (n, b)
    run_statements-Unhashed (sql ∷ sqls) n b =
        bind-Unhashed (checked_query-Unhashed sql) (λ out. run_statements-Unhashed sqls _ _)

    report_script-Unhashed : (t : ℕ × Bool) → Unhashed (report_script cli t)
    unfolding report_script
    report_script-Unhashed t = record { kept = λ f h. h }

    script_text-Unhashed : (step : WorkloadStep) (sql : Text) → Unhashed (script_text cli step sql)
    unfolding script_text
    script_text-Unhashed step sql =
        bind-Unhashed
          (raise_if-Unhashed (is_empty (split_sql_statements sql))
            (value_error (kind_text step.kind ++ codes " step has no statements")))
          (λ _.
            bind-Unhashed (run_statements-Unhashed (split_sql_statements sql) 0 false)
              report_script-Unhashed)

    script_step-Unhashed : (step : WorkloadStep) → Unhashed (script_step cli step)
    unfolding script_step
    script_step-Unhashed step =
        bind-Unhashed (or_raise-Unhashed (given step.sql) _) (script_text-Unhashed step)

    require_time-Unhashed : (reply : Reply) (o : Option ℕ) → Unhashed (require_time cli reply o)
    unfolding require_time
    require_time-Unhashed reply o = raise_if-Unhashed _ _

    keep_cypher-Unhashed : (reply : Reply) → Unhashed (keep_cypher cli reply)
    unfolding keep_cypher
    keep_cypher-Unhashed reply = record {
      kept = λ f h. (require_time-Unhashed reply _).kept _ refl;
    }

    cypher_step-Unhashed : (step : WorkloadStep) → Unhashed (cypher_step cli step)
    unfolding cypher_step measure_cypher report_cypher
    cypher_step-Unhashed step = bind-Unhashed (or_raise-Unhashed (given step.sql) _) (λ sql.
        bind-Unhashed (checked_query-Unhashed _)
          (λ out. bind-Unhashed (or_raise-Unhashed _ _) keep_cypher-Unhashed))

    query_script-Unhashed :
        (step : WorkloadStep) (sqls : List Text) → Unhashed (query_script cli step sqls)
    unfolding query_script
    query_script-Unhashed step [] = raise-Unhashed _
    query_script-Unhashed step (p ∷ ps) = pure-Unhashed _

    keep_query-Unhashed : (reply : Reply) → Unhashed (keep_query cli reply)
    unfolding keep_query
    keep_query-Unhashed reply = record { kept = λ f h. refl }

    query_step-Unhashed : (step : WorkloadStep) → Unhashed (query_step cli step)
    unfolding query_step query_text measure_query report_query
    query_step-Unhashed step = bind-Unhashed (or_raise-Unhashed (given step.sql) _) (λ sql.
        bind-Unhashed (query_script-Unhashed step _) (λ script.
          bind-Unhashed (checked_query-Unhashed script)
            (λ out. bind-Unhashed (or_raise-Unhashed _ _) keep_query-Unhashed)))

    python_step-Unhashed : (fn : Option Callable) → Unhashed (python_step cli.machine fn)
    unfolding python_step
    python_step-Unhashed none = raise-Unhashed _
    python_step-Unhashed (some fn) = call-Unhashed (λ w. cli.machine.call_fn w fn)

    step_body-Unhashed :
        (step : WorkloadStep) (kind : StepKind) → Unhashed (step_body cli step kind)
    unfolding step_body
    step_body-Unhashed step python = python_step-Unhashed step.fn
    step_body-Unhashed step sql_ddl = script_step-Unhashed step
    step_body-Unhashed step sql_dml = script_step-Unhashed step
    step_body-Unhashed step maintenance = script_step-Unhashed step
    step_body-Unhashed step cypher_dml = script_step-Unhashed step
    step_body-Unhashed step cypher_query = cypher_step-Unhashed step
    step_body-Unhashed step sql_query = query_step-Unhashed step

    make_result-Outcome :
        (step : WorkloadStep) (w : W) (b : Bool) (out : Result Unit × Frame W)
        → let r = (make_result cli.machine step w b out).1 in Outcome r.exit_code r.error
    unfolding make_result
    make_result-Outcome step w b (ok a, f) = inl (refl, refl)
    make_result-Outcome step w b (err e, f) = inr (refl, _, refl)

    pub run_step-Outcome :
        (b : Bool) (w : W) (step : WorkloadStep)
        → let r = (run_step cli b w step).1 in
          Outcome r.exit_code r.error × (r.result_sha256 ≡ none)
    unfolding run_step
    run_step-Outcome b w step =
        let out = step_body cli step step.kind (initial cli.machine w) in
        (
          make_result-Outcome step w b out,
          unfold make_result in
              (step_body-Unhashed step step.kind).kept (initial cli.machine w) refl,
        )

-- What is said of a result, of a call that may raise.
abbrev Reports : Attempt StepResult → Type 0
Reports raised = Unit
Reports (returned r) = Outcome r.exit_code r.error × (r.result_sha256 ≡ none)

-- Whatever the command line client does, every record of a run with the DeltaForge adapter has the exit
-- code 0 and no error, or 1 and an error, and no digest of a result, also of a query that expects rows, for
-- which the contract in engines/base.py asks for one.
pub run_workload-Outcome :
    {W : Type 0} (p : Platform W) (around : Around W) (workload : Workload) (data_dir : Text)
    (sf : ℕ) (w : W × AdapterState) (jsonl : List StepRecord)
    → All
        (λ r. Outcome r.exit_code r.error × (r.result_sha256 ≡ none))
        (run_workload (df_host p around) workload data_dir sf w jsonl).0.records
unfolding df_run_step
run_workload-Outcome p around workload data_dir sf w jsonl =
    run_workload-All (df_host p around) workload data_dir sf
      (λ r. Outcome r.exit_code r.error × (r.result_sha256 ≡ none))
      (λ w step resolved_step r i cold purged t e.
        unfold make_record in
        subst Reports e (run_step-Outcome p.cli (is_found w.1.worker_pid) w.0 resolved_step))
      w jsonl
