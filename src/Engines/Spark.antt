-- ===== src/Engines/Spark.antt =====
-- `run_step` and `_split_sql_statements` of engines/spark_default_engine.py and
-- engines/spark_tuned_engine.py. The session is given: what `sql` and `collect` do in a state, and the
-- phases that the tracker of a query lists.
use delta_forge_benchmarks.Common.{
  ℕ, ◌+◌, ◌*◌, ◌/◌, ◌||◌, Bool, true, false, ◌&&◌, Option, some, String, List, [], ◌∷◌, ◌++◌, map,
  keep, length, ltb, if◌then◌else◌, ◌==◌, nat_eq,
}
use delta_forge_benchmarks.Common.Text.{Text, codes}
use delta_forge_benchmarks.Engines.Df.{has_code, all_chunks, new_chunk, with_char}
use delta_forge_benchmarks.Engines.Df.Step.{given, kind_text, is_empty}
use delta_forge_benchmarks.Engines.Duckdb.{digest_if, failure, unknown_kind}
use delta_forge_benchmarks.Engines.Frame.{
  value_error, Result, Action, pure, or_raise, ◌>>=◌, ◌>>◌, raise_if, modify, call, Machine,
  initial, make_result, python_step,
}
use delta_forge_benchmarks.Purge.{strip}
use delta_forge_benchmarks.Steps.{
  StepKind, sql_query, sql_dml, sql_ddl, maintenance, python, cypher_query, cypher_dml,
  WorkloadStep, StepResult,
}
use delta_forge_benchmarks.Workloads.Digest.{Cell}

-- Every semicolon separates.
unfoldable pub semicolon_chunks : Text → Text × List Text
semicolon_chunks [] = ([], [])
semicolon_chunks (c ∷ s) =
    let rest = semicolon_chunks s in if c == b';' then new_chunk rest else with_char c rest

unfoldable pub split_sql_statements : Text → List Text
unfolding semicolon_chunks
split_sql_statements text = keep has_code (map strip (all_chunks (semicolon_chunks text)))

-- The durations of the phases of a query in whole milliseconds; the flag says that the iteration ends
-- by an exception, which the adapter passes over.
pub record Phases : Type 0 where
  pub duration_ms : List ℕ
  pub broken : Bool

-- A collected query: its rows, and the phases of its tracker.
pub record Collected : Type 0 where
  pub rows : List (List Cell)
  pub phases : Phases

pub record Session (W : Type 0) : Type 0 where
  pub machine : Machine W
  pub collect : W → Text → W × Result Collected
  pub sha256 : Text → String

abbrev pub sum_ns : List ℕ → ℕ
sum_ns [] = 0
sum_ns (d ∷ ds) = d * 1000000 + sum_ns ds

abbrev saw_any : List ℕ → Bool
saw_any [] = false
saw_any (d ∷ ds) = true

-- `ns / 1_000_000.0`, in microseconds
abbrev pub ms_of : ℕ → ℕ
ms_of ns = ns / 1000

module _ {W : Type 0} (session : Session W) where
  -- The loop over the statements of a script: the nanoseconds, and whether any phase was seen.
  unfoldable pub run_statements : List Text → ℕ → Bool → Action W (ℕ × Bool)
  run_statements [] summed_ns saw = pure (summed_ns, saw)
  run_statements (stmt ∷ stmts) summed_ns saw = do
    df ← call (λ w. session.collect w stmt)
    run_statements stmts (summed_ns + sum_ns df.phases.duration_ms)
        (saw || saw_any df.phases.duration_ms)

  unfoldable pub script_step : WorkloadStep → Action W (Unit {0})
  unfolding run_statements split_sql_statements
  script_step step = do
    sql ←
        or_raise (given step.sql) (value_error (kind_text step.kind ++ codes " step requires sql"))
    raise_if (is_empty (split_sql_statements sql))
        (value_error (kind_text step.kind ++ codes " step has no statements"))
    (summed_ns, saw) ← run_statements (split_sql_statements sql) 0 false
    modify (λ f. record f {
      engine_reported_ms =
          if saw && ltb 0 summed_ns then some (ms_of summed_ns) else f.engine_reported_ms;
    })

  -- The time of a query: only a complete iteration sets it.
  abbrev pub query_ms : Phases → Option ℕ → Option ℕ
  query_ms p old =
      if p.broken
      then old
      else if ltb 0 (sum_ns p.duration_ms)
      then some (ms_of (sum_ns p.duration_ms))
      else old

  unfoldable pub query_step : WorkloadStep → Action W (Unit {0})
  unfolding digest_if
  query_step step = do
    sql ← or_raise (given step.sql) (value_error (codes "SQL_QUERY requires sql"))
    df ← call (λ w. session.collect w sql)
    modify (λ f. record f {
      rows_returned = some (length df.rows);
      result_sha = digest_if session.sha256 step.expects_rows df.rows f.result_sha;
      engine_reported_ms = query_ms df.phases f.engine_reported_ms;
    })

  unfoldable pub step_body : WorkloadStep → StepKind → Action W (Unit {0})
  unfolding script_step query_step unknown_kind
  step_body step python = python_step session.machine step.fn
  step_body step sql_ddl = script_step step
  step_body step sql_dml = script_step step
  step_body step maintenance = script_step step
  step_body step sql_query = query_step step
  step_body step cypher_query = unknown_kind cypher_query
  step_body step cypher_dml = unknown_kind cypher_dml

  -- The flags say whether `_spark` and whether `_session_pid` are set.
  unfoldable pub run_step : Bool → Bool → W → WorkloadStep → W × StepResult
  unfolding make_result step_body failure
  run_step false has_pid w step = (w, failure step.id (codes "engine not started"))
  run_step true false w step = (w, failure step.id (codes "session pid not set"))
  run_step true true w step =
      make_result session.machine step w true (step_body step step.kind (initial session.machine w))
