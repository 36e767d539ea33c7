-- ===== src/Steps/Workload.antt =====
-- `Workload` of workloads/spec.py.
use delta_forge_benchmarks.Common.{ℕ, Bool, Option, String, List}
use delta_forge_benchmarks.Common.Text.{Text}
use delta_forge_benchmarks.Steps.{WorkloadStep}

pub record Workload : Type 0 where
  pub name : String
  pub description : String
  pub catalog_setup_steps : List WorkloadStep
  pub setup_steps : List WorkloadStep
  pub measured_steps : List WorkloadStep
  pub cleanup_steps : List WorkloadStep
  pub cold_runs : ℕ
  pub warm_runs : ℕ
  pub requires_data_at_scale : Option ℕ
  pub applicable_engines : Option (List String)
  pub data_subdir : Text
  pub requires_input_data : Bool
