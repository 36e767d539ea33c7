-- ===== src/Workloads/Graph/Steps.antt =====
-- The steps of workloads/graph_gpu_vs_cpu.py. Their ids are texts, since the graph report takes them apart.
use delta_forge_benchmarks.Common.{ℕ, Bool, true, false, List, [], ◌∷◌, ◌++◌, map, nat_eq, list_eq}
use delta_forge_benchmarks.Common.Text.{Text, codes, show}
use delta_forge_benchmarks.Steps.{StepKind, sql_ddl, cypher_query}
use delta_forge_benchmarks.Workloads.Graph.Algos.{Algo, algos}
use delta_forge_benchmarks.Workloads.Graph.Scripts.{zone, root, graph_of, setup_sql, cleanup_sql}

pub data Device : Type 0 where
  cpu gpu : Device

abbrev pub device_text : Device → Text
device_text cpu = codes "cpu"
device_text gpu = codes "gpu"

abbrev upper_text : Device → Text
upper_text cpu = codes "CPU"
upper_text gpu = codes "GPU"

pub record GraphStep : Type 0 where
  pub id : Text
  pub kind : StepKind
  pub sql : Text
  pub description : Text
  pub measured : Bool

abbrev on_device : Device → Text
on_device cpu = codes " "
on_device gpu = codes " ON GPU THRESHOLD 1 "

-- `f"{key}__{m}m__{device}"`
unfoldable pub step_id : Text → ℕ → Device → Text
unfolding show
step_id key m device = key ++ (95 ∷ 95 ∷ (show m ++ (109 ∷ 95 ∷ 95 ∷ device_text device)))

-- `_algo_step`
unfoldable pub algo_step : ℕ → Algo → Device → GraphStep
unfolding step_id
algo_step m a device = record {
  id = step_id a.key m device;
  kind = cypher_query;
  sql = codes "USE " ++ graph_of m ++ on_device device ++ a.call;
  description =
      a.label ++ codes " on " ++ show m ++ codes "M-node graph (" ++ upper_text device ++ codes ")";
  measured = true;
}

abbrev pub ddl_step : Text → Text → Text → GraphStep
ddl_step id sql description = record {
  id = id;
  kind = sql_ddl;
  sql = sql;
  description = description;
  measured = false;
}

unfoldable pub setup_steps : List ℕ → List GraphStep
unfolding setup_sql
setup_steps ms =
    ddl_step (codes "prep_zone")
      (codes "CREATE ZONE IF NOT EXISTS "
        ++ zone
        ++ codes " TYPE DELTA STORAGE_ROOT '"
        ++ root
        ++ codes "'")
      (codes "Create the Delta zone for graph fixtures")
    ∷ map
        (λ m.
          ddl_step (codes "build_" ++ show m ++ codes "m") (setup_sql m)
            (codes "Build " ++ show m ++ codes "M-node graph + CSR + GPU sidecar"))
        ms

-- The steps of one size, in the order of the algorithms.
unfoldable pub steps_of_size : ℕ → List Algo → List GraphStep
unfolding algo_step
steps_of_size m [] = []
steps_of_size m (a ∷ algos) = algo_step m a cpu ∷ algo_step m a gpu ∷ steps_of_size m algos

unfoldable pub measured_steps : List ℕ → List GraphStep
unfolding steps_of_size
measured_steps [] = []
measured_steps (m ∷ ms) = steps_of_size m algos ++ measured_steps ms

unfoldable pub cleanup_steps : List ℕ → List GraphStep
unfolding cleanup_sql
cleanup_steps ms =
    map
      (λ m.
        ddl_step (codes "drop_" ++ show m ++ codes "m") (cleanup_sql m)
          (codes "Drop " ++ show m ++ codes "M-node graph + tables"))
      ms
