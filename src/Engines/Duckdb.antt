-- ===== src/Engines/Duckdb.antt =====
-- `run_step` of engines/duckdb_engine.py. The connection is given: what `execute` and `fetchall` do in a
-- state.
use delta_forge_benchmarks.Common.{
  Bool, true, false, Option, none, some, String, List, ◌++◌, length,
}
use delta_forge_benchmarks.Common.Text.{Text, codes}
use delta_forge_benchmarks.Engines.Df.Step.{given, kind_text}
use delta_forge_benchmarks.Engines.Frame.{
  value_error, Result, Action, raise, or_raise, ◌>>=◌, ◌>>◌, modify, call, Machine, initial,
  make_result, python_step,
}
use delta_forge_benchmarks.Steps.{
  StepKind, sql_query, sql_dml, sql_ddl, maintenance, python, cypher_query, cypher_dml,
  WorkloadStep, StepResult,
}
use delta_forge_benchmarks.Workloads.Digest.{Cell, hash_result_rows}

pub record Connection (W : Type 0) : Type 0 where
  pub machine : Machine W
  pub execute : W → Text → W × Result Unit
  pub fetchall : W → W × Result (List (List Cell))
  pub sha256 : Text → String

-- `_failure(step_id, message)`
unfoldable pub failure : String → Text → StepResult
failure step_id message = record {
  step_id = step_id;
  wall_ms = 0;
  engine_reported_ms = none;
  rss_peak_mb = none;
  cpu_pct_avg = none;
  rows_returned = none;
  result_sha256 = none;
  exit_code = 2;
  error = some message;
  extra = none;
}

-- `unknown step kind`
unfoldable pub unknown_kind : {W : Type 0} → StepKind → Action W (Unit {0})
unknown_kind kind = raise (value_error (codes "unknown step kind: " ++ kind_text kind))

-- The digest of the rows, if the step expects any.
unfoldable pub digest_if : (Text → String) → Bool → List (List Cell) → Option String → Option String
unfolding hash_result_rows
digest_if sha256 true rows old = some (hash_result_rows sha256 rows).0
digest_if sha256 false rows old = old

module _ {W : Type 0} (conn : Connection W) where
  unfoldable pub execute_step : WorkloadStep → Action W (Unit {0})
  execute_step step = do
    sql ←
        or_raise (given step.sql) (value_error (kind_text step.kind ++ codes " step requires sql"))
    call (λ w. conn.execute w sql)

  unfoldable pub fetch_step : WorkloadStep → Action W (Unit {0})
  unfolding digest_if
  fetch_step step = do
    sql ← or_raise (given step.sql) (value_error (codes "SQL_QUERY requires sql"))
    call (λ w. conn.execute w sql)
    rows ← call (λ w. conn.fetchall w)
    modify (λ f. record f {
      rows_returned = some (length rows);
      result_sha = digest_if conn.sha256 step.expects_rows rows f.result_sha;
    })

  unfoldable pub step_body : WorkloadStep → StepKind → Action W (Unit {0})
  unfolding execute_step fetch_step unknown_kind
  step_body step python = python_step conn.machine step.fn
  step_body step sql_ddl = execute_step step
  step_body step sql_dml = execute_step step
  step_body step maintenance = execute_step step
  step_body step sql_query = fetch_step step
  step_body step cypher_query = unknown_kind cypher_query
  step_body step cypher_dml = unknown_kind cypher_dml

  -- The flags say whether `_conn` and whether `_session_pid` are set.
  unfoldable pub run_step : Bool → Bool → W → WorkloadStep → W × StepResult
  unfolding make_result step_body failure
  run_step false has_pid w step = (w, failure step.id (codes "engine not started"))
  run_step true false w step = (w, failure step.id (codes "session pid not set"))
  run_step true true w step =
      make_result conn.machine step w true (step_body step step.kind (initial conn.machine w))
