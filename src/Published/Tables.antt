-- ===== src/Published/Tables.antt =====
-- The tables of `render_bench_md` in reports/build_published.py.
pub mod Laws
pub mod Page
use delta_forge_benchmarks.Common.{
  ℕ, suc, ◌+◌, Bool, true, false, not, Option, none, some, List, [], ◌∷◌, ◌++◌, map, keep, length,
  contains, if◌then◌else◌, ◌==◌, nat_eq, list_eq,
}
use delta_forge_benchmarks.Common.Dict.{Dict, lookup, lookup_or, keys, values}
use delta_forge_benchmarks.Common.Sort.{sorted}
use delta_forge_benchmarks.Common.Text.{Text, codes, show, text_le}
use delta_forge_benchmarks.Published.Format.{speedup, fmt_ms}
use delta_forge_benchmarks.Published.Medians.{Line, EngineSummary, load_engine_records}
use delta_forge_benchmarks.Stats.Percentile.{median}

-- `ENGINE_ORDER` and `ENGINE_LABEL`
abbrev pub engine_order : List Text
engine_order = codes "df" ∷ codes "duckdb" ∷ codes "spark-default" ∷ codes "spark-tuned" ∷ []

abbrev pub engine_label : Text → Text
engine_label e =
    if e == codes "df"
    then codes "DeltaForge"
    else if e == codes "duckdb"
    then codes "DuckDB"
    else if e == codes "spark-default"
    then codes "Spark (default)"
    else codes "Spark (tuned)"

-- What is known of an engine: its medians and its summary.
pub record EngineData : Type 0 where
  pub engine : Text
  pub medians : Dict Text ℕ
  pub summary : EngineSummary

abbrev loaded : Text → Dict Text ℕ × EngineSummary → EngineData
loaded e (m, s) = record { engine = e; medians = m; summary = s }

-- A missing file is an engine that was not run.
unfoldable pub load_engine : (Text → Option (List Line)) → Text → EngineData
unfolding load_engine_records
load_engine jsonl e = elim (jsonl e) [
  | none ↦ record {
    engine = e;
    medians = [];
    summary = record {
      ok = 0;
      fail = 0;
      first_error = some (codes "engine not run");
      n_queries = 0;
    };
  }
  | some lines ↦ loaded e (load_engine_records lines)
]

-- The union of the keys, without repetition.
unfoldable pub add_keys : List Text → List Text → List Text
add_keys [] qs = qs
add_keys (k ∷ ks) qs = let rest = add_keys ks qs in if contains rest k then rest else k ∷ rest

unfoldable pub queries_of : List EngineData → List Text
unfolding add_keys
queries_of [] = []
queries_of (d ∷ ds) = add_keys (keys d.medians) (queries_of ds)

unfoldable pub per_query_row : List EngineData → Text → List Text
unfolding fmt_ms
per_query_row ds q = q ∷ map (λ d. fmt_ms (lookup q d.medians)) ds

-- The median over the queries that the engine completed.
abbrev pub aggregate_of : EngineData → Option ℕ
aggregate_of d = median (values d.medians)

unfoldable pub median_row : List EngineData → List Text
unfolding fmt_ms
median_row ds =
    codes "**median (across completed queries)**"
    ∷ map (λ d. codes "**" ++ fmt_ms (aggregate_of d) ++ codes "**") ds

abbrev pub is_df : EngineData → Bool
is_df d = d.engine == codes "df"

unfoldable pub speedup_row : Dict Text ℕ → List EngineData → Text → List Text
unfolding speedup
speedup_row df ds q =
    q ∷ map (λ d. speedup (lookup q df) (lookup q d.medians)) (keep (λ d. not (is_df d)) ds)

abbrev or_no_failures : Option Text → Text
or_no_failures none = codes "no failures"
or_no_failures (some []) = codes "no failures"
or_no_failures (some (c ∷ s)) = c ∷ s

-- `{completed} / {queries}`
unfoldable pub completion_row : ℕ → EngineData → List Text
unfolding fmt_ms show
completion_row n d =
    engine_label d.engine
    ∷ (show (length d.medians) ++ codes " / " ++ show n)
    ∷ fmt_ms (aggregate_of d)
    ∷ or_no_failures d.summary.first_error
    ∷ []

pub record BenchTables : Type 0 where
  pub queries : List Text
  pub completion : List (List Text)
  pub per_query : List (List Text)
  pub speedups : List (List Text)

abbrev pub medians_of_df : List EngineData → Dict Text ℕ
medians_of_df [] = []
medians_of_df (d ∷ ds) = let rest = medians_of_df ds in if is_df d then d.medians else rest

unfoldable pub bench_tables : (Text → Option (List Line)) → BenchTables
unfolding load_engine queries_of per_query_row median_row speedup_row completion_row
bench_tables jsonl =
    let ds = map (load_engine jsonl) engine_order in
    let qs = sorted text_le (queries_of ds) in
    record {
      queries = qs;
      completion = map (completion_row (length qs)) ds;
      per_query = map (per_query_row ds) qs ++ median_row ds ∷ [];
      speedups = map (speedup_row (medians_of_df ds) ds) qs;
    }
