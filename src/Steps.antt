-- ===== src/Steps.antt =====
-- The units of work and their results (engines/base.py) and the workloads made of them
-- (workloads/spec.py). Timings are in microseconds, percentages and megabytes in thousandths.
pub mod Workload
use delta_forge_benchmarks.Common.{ℕ, Bool, Option, String}
use delta_forge_benchmarks.Common.Text.{Text}
use delta_forge_benchmarks.Common.Dict.{Dict}

pub data StepKind : Type 0 where
  sql_query sql_dml sql_ddl maintenance python cypher_query cypher_dml : StepKind

-- A Python function, by its name.
abbrev pub Callable : Type 0
Callable = String

pub record WorkloadStep : Type 0 where
  pub id : String
  pub kind : StepKind
  pub sql : Option Text
  pub per_engine_sql : Option (Dict String Text)
  pub per_engine_kind : Option (Dict String StepKind)
  pub fn : Option Callable
  pub description : String
  pub measured : Bool
  pub expects_rows : Bool

-- A value of `extra`: a number, in thousandths, or the text of a cell.
pub data Metric : Type 0 where
  number : ℕ → Metric
  text : Text → Metric

pub record StepResult : Type 0 where
  pub step_id : String
  pub wall_ms : ℕ
  pub engine_reported_ms : Option ℕ
  pub rss_peak_mb : Option ℕ
  pub cpu_pct_avg : Option ℕ
  pub rows_returned : Option ℕ
  pub result_sha256 : Option String
  pub exit_code : ℕ
  pub error : Option Text
  pub extra : Option (Dict Text Metric)

pub record ColdStartMetrics : Type 0 where
  pub import_to_session_ready_ms : ℕ
  pub session_to_first_query_ms : ℕ
