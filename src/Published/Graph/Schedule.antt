-- ===== src/Published/Graph/Schedule.antt =====
-- The steps of workloads/graph_gpu_vs_cpu.py, as the graph report reads their ids.
use mathlib.Core.List.{map-append}
use delta_forge_benchmarks.Common.{
  ℕ, true, ◌≡◌, refl, ap₂, ◌∙◌, Option, some, List, [], ◌∷◌, ◌++◌, map, all, &&-split, sym, nat_eq,
  list_eq,
}
use delta_forge_benchmarks.Published.Graph.StepId.{
  StepKey, is_key, parse_step_id, parse_step_id-step_id,
}
use delta_forge_benchmarks.Workloads.Graph.Algos.{Algo, algos}
use delta_forge_benchmarks.Workloads.Graph.Steps.{
  cpu, gpu, GraphStep, algo_step, steps_of_size, measured_steps,
}

-- Each algorithm on both devices.
abbrev pub pairs_of : ℕ → List Algo → List StepKey
pairs_of m [] = []
pairs_of m (a ∷ rest) = (a.key, (m, cpu)) ∷ (a.key, (m, gpu)) ∷ pairs_of m rest

-- Each size, with each algorithm, on both devices.
abbrev pub schedule : List ℕ → List StepKey
schedule [] = []
schedule (m ∷ ms) = pairs_of m algos ++ schedule ms

abbrev id_key : GraphStep → Option StepKey
id_key s = parse_step_id s.id

steps_of_size-pairs_of :
    (m : ℕ) (rest : List Algo)
    → all (λ a. is_key a.key) rest ≡ true
    → map id_key (steps_of_size m rest) ≡ map some (pairs_of m rest)
unfolding steps_of_size algo_step
steps_of_size-pairs_of m [] h = refl
steps_of_size-pairs_of m (a ∷ rest) h =
    let (one, more) = &&-split (is_key a.key) (all (λ a. is_key a.key) rest) h in
    ap₂ ◌∷◌ (parse_step_id-step_id a.key m cpu one)
      (ap₂ ◌∷◌ (parse_step_id-step_id a.key m gpu one) (steps_of_size-pairs_of m rest more))

-- The graph report reads the ids of the measured steps as each size with each algorithm of the workload
-- on both devices, in that order, whatever the sizes are.
pub measured_steps-schedule :
    (sizes : List ℕ)
    → map (λ s. parse_step_id s.id) (measured_steps sizes) ≡ map some (schedule sizes)
unfolding measured_steps nat_eq
measured_steps-schedule [] = refl
measured_steps-schedule (m ∷ ms) =
    map-append id_key (steps_of_size m algos) (measured_steps ms)
    ∙ ap₂ ◌++◌ (steps_of_size-pairs_of m algos refl) (measured_steps-schedule ms)
    ∙ sym (map-append some (pairs_of m algos) (schedule ms))
