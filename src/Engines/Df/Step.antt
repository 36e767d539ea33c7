-- ===== src/Engines/Df/Step.antt =====
-- `run_step` of engines/df_engine.py. The command line client is given: what `subprocess.run` does in a
-- state. Python's `json.loads` and `repr` are given too.
use delta_forge_benchmarks.Common.{
  ℕ, ◌+◌, Bool, true, false, not, ◌||◌, Option, none, some, String, List, [], ◌∷◌, ◌++◌, take,
  length, if◌then◌else◌, ◌==◌, nat_eq, list_eq,
}
use delta_forge_benchmarks.Common.Dict.{Dict}
use delta_forge_benchmarks.Common.Text.{Text, codes, show}
use delta_forge_benchmarks.Engines.Df.{split_sql_statements}
use delta_forge_benchmarks.Engines.Df.Walk.{Reply, rows_of, Phases, walk_cypher, walk_sql}
use delta_forge_benchmarks.Engines.Frame.{
  PyException, value_error, runtime_error, Result, Action, pure, raise, or_raise, ◌>>=◌, ◌>>◌,
  raise_if, modify, call, Machine, initial, make_result, python_step,
}
use delta_forge_benchmarks.Engines.Output.{bind, scrape_dml_ms, try_parse_cli_json}
use delta_forge_benchmarks.Steps.{
  Metric, StepKind, sql_query, sql_dml, sql_ddl, maintenance, python, cypher_query, cypher_dml,
  WorkloadStep, StepResult,
}

-- A return code: an exit code, or minus the number of a signal.
pub data ReturnCode : Type 0 where
  exited signalled : ℕ → ReturnCode

pub record CompletedProcess : Type 0 where
  pub returncode : ReturnCode
  pub stdout : Text
  pub stderr : Text

pub record Cli (W : Type 0) : Type 0 where
  pub machine : Machine W
  pub loads : Text → Option Reply
  pub run_cli_query : W → Text → W × Result CompletedProcess

abbrev pub is_zero : ReturnCode → Bool
is_zero (exited n) = n == 0
is_zero (signalled n) = false

abbrev show_code : ReturnCode → Text
show_code (exited n) = show n
show_code (signalled n) = b'-' ∷ show n

-- `a or b` on texts
abbrev pub or_text : Text → Text → Text
or_text [] t = t
or_text (c ∷ s) t = c ∷ s

unfoldable pub failure_message : CompletedProcess → Text
unfolding show
failure_message p =
    codes "delta-forge-cli failed (exit "
    ++ show_code p.returncode
    ++ codes "): "
    ++ take 1000 (or_text p.stderr p.stdout)

abbrev pub kind_text : StepKind → Text
kind_text sql_query = codes "sql_query"
kind_text sql_dml = codes "sql_dml"
kind_text sql_ddl = codes "sql_ddl"
kind_text maintenance = codes "maintenance"
kind_text python = codes "python"
kind_text cypher_query = codes "cypher_query"
kind_text cypher_dml = codes "cypher_dml"

-- A text that is there and is not empty.
abbrev pub given : Option Text → Option Text
given none = none
given (some []) = none
given (some (c ∷ s)) = some (c ∷ s)

abbrev pub is_empty {ℓ} : {A : Type ℓ} → List A → Bool
is_empty [] = true
is_empty (x ∷ xs) = false

abbrev pub add_known : ℕ → Option ℕ → ℕ
add_known ms none = ms
add_known ms (some n) = ms + n

abbrev pub is_some : Option ℕ → Bool
is_some none = false
is_some (some n) = true

-- `SHOW STATS ACTUAL` before the last statement, behind the others.
unfoldable pub stats_sql : Text → List Text → Text
stats_sql p [] = codes "SHOW STATS ACTUAL " ++ p
stats_sql p (q ∷ ps) = p ++ codes ";\n" ++ stats_sql q ps

abbrev pub or_zero : Option ℕ → ℕ
or_zero none = 0
or_zero (some n) = n

abbrev metrics_or : Dict Text Metric → Option (Dict Text Metric) → Option (Dict Text Metric)
metrics_or [] old = old
metrics_or (m ∷ ms) old = some (m ∷ ms)

module _ {W : Type 0} (cli : Cli W) where
  -- The output of a call; another return code than 0 raises.
  unfoldable pub checked : CompletedProcess → Action W Text
  checked proc = do
    raise_if (not (is_zero proc.returncode)) (runtime_error (failure_message proc))
    pure proc.stdout

  unfoldable pub checked_query : Text → Action W Text
  unfolding checked
  checked_query sql = do proc ← call (λ w. cli.run_cli_query w sql); checked proc

  -- The time of a statement: that of the reply, or what the printed line tells.
  unfoldable pub statement_ms : Text → Option ℕ
  statement_ms stdout =
      elim (bind (try_parse_cli_json cli.loads stdout) (λ r. r.execution_time_ms)) [
        | none ↦ scrape_dml_ms stdout
        | some ms ↦ some ms
      ]

  -- The loop over the statements of a script.
  unfoldable pub run_statements : List Text → ℕ → Bool → Action W (ℕ × Bool)
  unfolding checked_query statement_ms
  run_statements [] summed saw = pure (summed, saw)
  run_statements (stmt ∷ stmts) summed saw = do
    stdout ← checked_query stmt
    run_statements stmts (add_known summed (statement_ms stdout))
        (saw || is_some (statement_ms stdout))

  -- What the statements of a script report together.
  unfoldable pub report_script : ℕ × Bool → Action W (Unit {0})
  report_script (summed, saw) =
      modify
        (λ f. record f { engine_reported_ms = if saw then some summed else f.engine_reported_ms })

  unfoldable pub script_text : WorkloadStep → Text → Action W (Unit {0})
  unfolding run_statements report_script split_sql_statements
  script_text step sql = do
    raise_if (is_empty (split_sql_statements sql))
        (value_error (kind_text step.kind ++ codes " step has no statements"))
    total ← run_statements (split_sql_statements sql) 0 false
    report_script total

  unfoldable pub script_step : WorkloadStep → Action W (Unit {0})
  unfolding script_text
  script_step step = do
    sql ←
        or_raise (given step.sql) (value_error (kind_text step.kind ++ codes " step requires sql"))
    script_text step sql

  -- `CLI did not return JSON ...`
  unfoldable pub not_json : String → Text → PyException
  not_json what stdout =
      runtime_error
        (codes what ++ codes "; stdout head: " ++ cli.machine.repr_text (take 300 stdout))

  -- A reply without the row of the total time is refused.
  unfoldable pub require_time : Reply → Option ℕ → Action W (Unit {0})
  require_time parsed ms = raise_if (not (is_some ms)) (
      runtime_error (
        codes "SHOW STATS ACTUAL returned no time/total_time_ms row ("
        ++ show (length (rows_of parsed))
        ++ codes " stats rows parsed); refusing to report an untrusted measurement"))

  -- What is read out of the reply is kept, also where the time is missing.
  unfoldable pub keep_cypher : Reply → Action W (Unit {0})
  unfolding require_time
  keep_cypher parsed = do
    let none_yet : Phases = record {
      engine_reported_ms = none;
      inner_row_count = none;
      phase_metrics = [];
    }
    let p = walk_cypher (rows_of parsed) none_yet
    modify (λ f. record f {
      engine_reported_ms = p.engine_reported_ms;
      rows_returned = some (or_zero p.inner_row_count);
      result_sha = none;
      extra = metrics_or p.phase_metrics f.extra;
    })
    require_time parsed p.engine_reported_ms

  unfoldable pub report_cypher : Text → Action W (Unit {0})
  unfolding keep_cypher
  report_cypher stdout = do
    parsed ←
        or_raise (try_parse_cli_json cli.loads stdout)
          (not_json "CLI did not return JSON for SHOW STATS (cypher)" stdout)
    keep_cypher parsed

  unfoldable pub measure_cypher : Text → Action W (Unit {0})
  unfolding checked_query report_cypher
  measure_cypher script = do stdout ← checked_query script; report_cypher stdout

  unfoldable pub cypher_step : WorkloadStep → Action W (Unit {0})
  unfolding measure_cypher
  cypher_step step = do
    sql ← or_raise (given step.sql) (value_error (codes "cypher_query step requires query text"))
    measure_cypher (codes "SHOW STATS ACTUAL " ++ sql)

  -- The query of a script: its last statement is measured, the others are its preamble.
  unfoldable pub query_script : WorkloadStep → List Text → Action W Text
  query_script step [] = raise (value_error (kind_text step.kind ++ codes " step has no SQL"))
  query_script step (p ∷ ps) = pure (stats_sql p ps)

  -- What is read out of the reply.
  unfoldable pub keep_query : Reply → Action W (Unit {0})
  keep_query parsed =
      let found = walk_sql (rows_of parsed) (none, none) in
      modify (λ f. record f {
        engine_reported_ms = found.0;
        rows_returned = some (or_zero found.1);
        result_sha = none;
      })

  unfoldable pub report_query : Text → Action W (Unit {0})
  unfolding keep_query
  report_query stdout = do
    parsed ←
        or_raise (try_parse_cli_json cli.loads stdout)
          (not_json "CLI did not return JSON for SHOW STATS" stdout)
    keep_query parsed

  unfoldable pub measure_query : Text → Action W (Unit {0})
  unfolding checked_query report_query
  measure_query script = do stdout ← checked_query script; report_query stdout

  unfoldable pub query_text : WorkloadStep → Text → Action W (Unit {0})
  unfolding measure_query query_script split_sql_statements
  query_text step sql = do
    script ← query_script step (split_sql_statements sql)
    measure_query script

  unfoldable pub query_step : WorkloadStep → Action W (Unit {0})
  unfolding query_text
  query_step step = do
    sql ←
        or_raise (given step.sql)
          (value_error (kind_text step.kind ++ codes " step requires query text"))
    query_text step sql

  unfoldable pub step_body : WorkloadStep → StepKind → Action W (Unit {0})
  unfolding script_step cypher_step query_step
  step_body step python = python_step cli.machine step.fn
  step_body step sql_ddl = script_step step
  step_body step sql_dml = script_step step
  step_body step maintenance = script_step step
  step_body step cypher_dml = script_step step
  step_body step cypher_query = cypher_step step
  step_body step sql_query = query_step step

  -- The flag says whether the platform's process was found.
  unfoldable pub run_step : Bool → W → WorkloadStep → W × StepResult
  unfolding make_result step_body
  run_step worker_found w step =
      make_result cli.machine step w worker_found (step_body step step.kind (initial cli.machine w))
