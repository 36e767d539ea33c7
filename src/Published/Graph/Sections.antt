-- ===== src/Published/Graph/Sections.antt =====
-- The tables of reports/build_graph_gpu_report.py, and `render_md` up to the text around them. Medians are
-- in hundredths of a microsecond.
use delta_forge_benchmarks.Common.{
  ℕ, ◌+◌, ◌-◌, ◌/◌, ◌%◌, Bool, true, false, ◌&&◌, Option, none, some, List, [], ◌∷◌, ◌++◌, map, leb,
  ltb, if◌then◌else◌, nat_eq, list_eq, pair_eq,
}
use delta_forge_benchmarks.Common.Dict.{Dict, lookup, lookup_or}
use delta_forge_benchmarks.Common.Sort.{sorted}
use delta_forge_benchmarks.Common.Text.{Text, codes, show, grouped}
use delta_forge_benchmarks.Engines.Output.{join_lines}
use delta_forge_benchmarks.Published.Format.{speedup, table_row}
use delta_forge_benchmarks.Published.Graph.Records.{Line, Records, device_eq, load_df_records}
use delta_forge_benchmarks.Published.Graph.StepId.{StepKey}
use delta_forge_benchmarks.Stats.Percentile.{round_ratio}
use delta_forge_benchmarks.Workloads.Graph.Algos.{Klass, memory_bound, compute_bound, Algo, algos}
use delta_forge_benchmarks.Workloads.Graph.Steps.{cpu, gpu}

-- `KLASS_LABEL`
abbrev klass_label : Klass → Text
klass_label memory_bound = codes "memory-bound"
klass_label compute_bound = codes "compute-bound"

-- `f"{ms:,.1f}"`
unfoldable pub fmt_tenths : Option ℕ → Text
unfolding grouped
fmt_tenths none = codes "-"
fmt_tenths (some v) =
    let t = round_ratio v 10000 in grouped (t / 10) ++ codes "." ++ (48 + t % 10) ∷ []

unfoldable pub render_rows : List (List Text) → List Text → List Text → Text
unfolding table_row
render_rows rows header align = join_lines (table_row header ∷ table_row align ∷ map table_row rows)

abbrev pub Medians : Type 0
Medians = Dict StepKey ℕ

abbrev pub PhaseMedians : Type 0
PhaseMedians = Dict StepKey (Dict Text ℕ)

unfoldable pub size_row : ℕ → Medians → Algo → List Text
unfolding fmt_tenths speedup
size_row m warm a =
    let c = lookup (a.key, (m, cpu)) warm in
    let g = lookup (a.key, (m, gpu)) warm in
    a.label ∷ klass_label a.klass ∷ fmt_tenths c ∷ fmt_tenths g ∷ speedup c g ∷ []

unfoldable pub per_size_section : ℕ → Medians → Text
unfolding size_row render_rows
per_size_section m warm =
    codes "### "
    ++ grouped m
    ++ codes "M nodes\n\n"
    ++ render_rows (map (size_row m warm) algos)
        (codes "algorithm"
          ∷ codes "class"
          ∷ codes "CPU warm (ms)"
          ∷ codes "GPU warm (ms)"
          ∷ codes "GPU speedup"
          ∷ [])
        (codes "---" ∷ codes "---" ∷ codes "---:" ∷ codes "---:" ∷ codes "---:" ∷ [])
    ++ codes "\n"

-- `cpu is not None and gpu is not None and gpu > 0 and cpu / gpu >= 1.0`
abbrev pub is_win : Option ℕ → Option ℕ → Bool
is_win none g = false
is_win (some c) none = false
is_win (some c) (some g) = ltb 0 g && leb g c

abbrev pub first_win : Option ℕ → ℕ → Option ℕ
first_win none m = some m
first_win (some n) m = some n

-- The two times of an algorithm at a size.
module _ (cpu_ms gpu_ms : ℕ → Option ℕ) where
  abbrev pub gpu_wins : ℕ → Bool
  gpu_wins m = is_win (cpu_ms m) (gpu_ms m)

  -- The loop over the sizes, with the size from which the GPU wins so far.
  unfoldable pub crossover_from : Option ℕ → List ℕ → Option ℕ
  crossover_from found [] = found
  crossover_from found (m ∷ ms) =
      crossover_from (if gpu_wins m then first_win found m else found) ms

  abbrev crossover_text : Option ℕ → Text
  crossover_text none = codes "never (in range)"
  crossover_text (some m) = show m ++ codes "M"

  unfoldable pub crossover_row : Algo → List ℕ → List Text
  unfolding crossover_from speedup show
  crossover_row a ms =
      a.label
      ∷ klass_label a.klass
      ∷ (map (λ m. speedup (cpu_ms m) (gpu_ms m)) ms
          ++ crossover_text (crossover_from none ms) ∷ [])

-- The table of either section, with its last header.
unfoldable pub crossover_table :
    Text → List ℕ → (Algo → ℕ → Option ℕ) → (Algo → ℕ → Option ℕ) → Text
unfolding crossover_row render_rows
crossover_table last ms cpu_ms gpu_ms =
    render_rows (map (λ a. crossover_row (cpu_ms a) (gpu_ms a) a ms) algos)
      (codes "algorithm" ∷ codes "class" ∷ (map (λ m. show m ++ codes "M") ms ++ last ∷ []))
      (codes "---" ∷ codes "---" ∷ (map (λ m. codes "---:") ms ++ codes "---:" ∷ []))

unfoldable pub crossover_section : Medians → List ℕ → Text
unfolding crossover_table
crossover_section warm ms =
    crossover_table (codes "GPU wins from") ms (λ a m. lookup (a.key, (m, cpu)) warm)
      (λ a m. lookup (a.key, (m, gpu)) warm)

abbrev phase_of : PhaseMedians → StepKey → Text → Option ℕ
phase_of phases key pk = lookup pk (lookup_or key [] phases)

unfoldable pub compute_crossover_section : PhaseMedians → List ℕ → Text
unfolding crossover_table
compute_crossover_section phases ms =
    crossover_table (codes "compute wins from") ms
      (λ a m. phase_of phases (a.key, (m, cpu)) (codes "cypher.algorithm.algorithm_ms"))
      (λ a m. phase_of phases (a.key, (m, gpu)) (codes "cypher.gpu.compute_ms"))

-- `any(d for d in phases.values())`
unfoldable pub has_phase_data : PhaseMedians → Bool
has_phase_data [] = false
has_phase_data ((k, []) ∷ phases) = has_phase_data phases
has_phase_data ((k, v ∷ d) ∷ phases) = true

abbrev or_zero : Option ℕ → ℕ
or_zero none = 0
or_zero (some n) = n

abbrev pub transfers_of : Option ℕ → Option ℕ → Option ℕ
transfers_of none none = none
transfers_of (some t) back = some (t + or_zero back)
transfers_of none (some t) = some t

-- `max(0.0, end_to_end - gpu_wall)`
abbrev pub rest_of : Option ℕ → Option ℕ → Option ℕ
rest_of (some whole) (some wall) = some (whole - wall)
rest_of none wall = none
rest_of (some whole) none = none

unfoldable pub phase_row : ℕ → Medians → PhaseMedians → Algo → List Text
unfolding fmt_tenths
phase_row m warm phases a =
    let key : StepKey = (a.key, (m, gpu)) in
    let whole = lookup key warm in
    let wall = phase_of phases key (codes "cypher.gpu.gpu_wall_ms") in
    a.label
    ∷ fmt_tenths whole
    ∷ fmt_tenths wall
    ∷ fmt_tenths (phase_of phases key (codes "cypher.gpu.compute_ms"))
    ∷ fmt_tenths (
        transfers_of (phase_of phases key (codes "cypher.gpu.transfer_to_gpu_ms"))
          (phase_of phases key (codes "cypher.gpu.transfer_from_gpu_ms")))
    ∷ fmt_tenths (rest_of whole wall)
    ∷ []

unfoldable pub gpu_phase_section : ℕ → Medians → PhaseMedians → Text
unfolding phase_row render_rows
gpu_phase_section m warm phases =
    codes "### "
    ++ grouped m
    ++ codes "M nodes: GPU time breakdown\n\n"
    ++ render_rows (map (phase_row m warm phases) algos)
        (codes "algorithm"
          ∷ codes "end-to-end (ms)"
          ∷ codes "GPU wall (ms)"
          ∷ codes "kernel (ms)"
          ∷ codes "transfers H2D+D2H (ms)"
          ∷ codes "host rest (ms)"
          ∷ [])
        (codes "---"
          ∷ codes "---:"
          ∷ codes "---:"
          ∷ codes "---:"
          ∷ codes "---:"
          ∷ codes "---:"
          ∷ [])
    ++ codes "\n"

pub record Breakdown : Type 0 where
  pub gpu_breakdown : Text
  pub compute_crossover : Text

pub record GraphTables : Type 0 where
  pub sizes : List ℕ
  pub per_size : Text
  pub crossover : Text
  pub breakdown : Option Breakdown

-- The two exits, or the tables.
pub data GraphPage : Type 0 where
  missing_file no_records : GraphPage
  page : GraphTables → GraphPage

unfoldable pub tables_of : Records → List ℕ → GraphTables
unfolding per_size_section crossover_section gpu_phase_section compute_crossover_section
    has_phase_data
tables_of r ms = record {
  sizes = ms;
  per_size = join_lines (map (λ m. per_size_section m r.warm) ms);
  crossover = crossover_section r.warm ms;
  breakdown =
      if has_phase_data r.phases
      then some (record {
        gpu_breakdown = join_lines (map (λ m. gpu_phase_section m r.warm r.phases) ms);
        compute_crossover = compute_crossover_section r.phases ms;
      })
      else none;
}

abbrev page_of : Records → List ℕ → GraphPage
page_of r [] = no_records
page_of r (m ∷ ms) = page (tables_of r (m ∷ ms))

-- `render_md`, of the lines of df.jsonl if the file is there
unfoldable pub render_md : Option (List Line) → GraphPage
unfolding load_df_records tables_of
render_md none = missing_file
render_md (some lines) = let r = load_df_records lines in page_of r (sorted leb r.sizes)
