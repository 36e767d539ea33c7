-- ===== src/Published/Graph/Records.antt =====
-- `load_df_records` of reports/build_graph_gpu_report.py. Timings are in microseconds, medians in
-- hundredths of them; the keys of a record that are looked at are decoded.
pub mod Laws
use delta_forge_benchmarks.Common.{
  ℕ, refl, Bool, true, false, Option, none, some, List, [], ◌∷◌, ◌++◌, contains, if◌then◌else◌,
  ◌==◌, nat_eq, list_eq, pair_eq, leb, Eq,
}
use delta_forge_benchmarks.Common.Dict.{Dict, lookup, lookup_or, insert}
use delta_forge_benchmarks.Common.Sort.{sorted}
use delta_forge_benchmarks.Common.Text.{Text, codes}
use delta_forge_benchmarks.Engines.Output.{parse_float, without_commas}
use delta_forge_benchmarks.Published.Graph.StepId.{StepKey, parse_step_id}
use delta_forge_benchmarks.Stats.Percentile.{Ms, median_sorted}
use delta_forge_benchmarks.Steps.{Metric, number, text}
use delta_forge_benchmarks.Workloads.Graph.Steps.{Device, cpu, gpu}

device_dec : Discrete Device
device_dec cpu cpu = yes refl
device_dec gpu gpu = yes refl
device_dec cpu gpu = no (λ e. cc)
device_dec gpu cpu = no (λ e. cc)

instance unfoldable pub device_eq : Eq Device
unfolding device_dec
device_eq = record { dec = device_dec }

pub record Line : Type 0 where
  pub step_id : Option Text
  pub engine_reported_ms : Option Ms
  pub wall_ms : Option Ms
  pub error : Option Text
  pub cold : Bool
  pub extra : Option (Dict Text Metric)

-- `_num`
unfoldable pub num : Option Metric → Option ℕ
unfolding parse_float
num none = none
num (some (number n)) = some n
num (some (text s)) = parse_float (without_commas s)

-- `_PHASE_KEYS`
abbrev pub phase_keys : List Text
phase_keys =
    codes "time.total_engine_time_ms"
    ∷ codes "cypher.algorithm.algorithm_ms"
    ∷ codes "cypher.gpu.gpu_wall_ms"
    ∷ codes "cypher.gpu.compute_ms"
    ∷ codes "cypher.gpu.transfer_to_gpu_ms"
    ∷ codes "cypher.gpu.transfer_from_gpu_ms"
    ∷ codes "cypher.csr.load_ms"
    ∷ []

abbrev pub Phases : Type 0
Phases = Dict Text (List Ms)

-- The variables of the loop; the set of the sizes is a list without repetition.
pub record Loading : Type 0 where
  pub warm_runs : Dict StepKey (List Ms)
  pub cold_runs : Dict StepKey Ms
  pub sizes : List ℕ
  pub phase_runs : Dict StepKey Phases

abbrev pub start : Loading
start = record { warm_runs = []; cold_runs = []; sizes = []; phase_runs = [] }

-- `d[k].append(v)` of a defaultdict of lists
abbrev pub append_to {ℓ} : {K : Type ℓ} ⦃e : Eq K⦄ → K → Ms → Dict K (List Ms) → Dict K (List Ms)
append_to k v d = insert k (lookup_or k [] d ++ v ∷ []) d

abbrev add_phase : StepKey → Text → Option ℕ → Dict StepKey Phases → Dict StepKey Phases
add_phase key pk none runs = runs
add_phase key pk (some pv) runs = insert key (append_to pk pv (lookup_or key [] runs)) runs

abbrev metric_at : Text → Option (Dict Text Metric) → Option Metric
metric_at pk none = none
metric_at pk (some extra) = lookup pk extra

unfoldable pub add_phases :
    StepKey → Option (Dict Text Metric) → List Text → Dict StepKey Phases → Dict StepKey Phases
unfolding num
add_phases key extra [] runs = runs
add_phases key extra (pk ∷ pks) runs =
    add_phases key extra pks (add_phase key pk (num (metric_at pk extra)) runs)

abbrev pub add_size : ℕ → List ℕ → List ℕ
add_size m sizes = if contains sizes m then sizes else m ∷ sizes

-- The engine's time, or else the wall clock, of a line without an error
abbrev pub measured : Line → Option Ms
measured r = elim r.error [
  | some e ↦ none
  | none ↦ elim r.engine_reported_ms [ some ms ↦ some ms | none ↦ r.wall_ms ]
]

abbrev pub add_run : Line → StepKey → Ms → Loading → Loading
add_run r key ms st =
    if r.cold
    then record st { sizes = add_size key.1.0 st.sizes; cold_runs = insert key ms st.cold_runs }
    else record st {
      sizes = add_size key.1.0 st.sizes;
      warm_runs = append_to key ms st.warm_runs;
      phase_runs = add_phases key r.extra phase_keys st.phase_runs;
    }

abbrev pub key_of : Line → Option StepKey
key_of r = elim r.step_id [ none ↦ none | some sid ↦ parse_step_id sid ]

abbrev pub add_keyed : Line → Option StepKey → Option Ms → Loading → Loading
add_keyed r none ms st = st
add_keyed r (some key) none st = st
add_keyed r (some key) (some ms) st = add_run r key ms st

unfoldable pub add_line : Line → Loading → Loading
unfolding add_phases parse_step_id
add_line r st = add_keyed r (key_of r) (measured r) st

unfoldable pub add_lines : List Line → Loading → Loading
unfolding add_line
add_lines [] st = st
add_lines (r ∷ rs) st = add_lines rs (add_line r st)

-- `{k: statistics.median(v) for k, v in runs.items() if v}`
unfoldable pub medians_of {ℓ} : {K : Type ℓ} → Dict K (List Ms) → Dict K ℕ
unfolding median_sorted
medians_of [] = []
medians_of ((k, []) ∷ runs) = medians_of runs
medians_of ((k, v ∷ vs) ∷ runs) = (k, median_sorted (sorted leb (v ∷ vs))) ∷ medians_of runs

abbrev phase_medians : Dict StepKey Phases → Dict StepKey (Dict Text ℕ)
phase_medians [] = []
phase_medians ((k, d) ∷ runs) = (k, medians_of d) ∷ phase_medians runs

pub record Records : Type 0 where
  pub warm : Dict StepKey ℕ
  pub cold : Dict StepKey Ms
  pub sizes : List ℕ
  pub phases : Dict StepKey (Dict Text ℕ)

unfoldable pub load_df_records : List Line → Records
unfolding add_lines medians_of
load_df_records lines =
    let st = add_lines lines start in
    record {
      warm = medians_of st.warm_runs;
      cold = st.cold_runs;
      sizes = st.sizes;
      phases = phase_medians st.phase_runs;
    }
