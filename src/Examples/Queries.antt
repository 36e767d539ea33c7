-- ===== src/Examples/Queries.antt =====
-- Queries, templates, results and registries of the workloads.
use mathlib.Core.List.{Perm}
use delta_forge_benchmarks.Common.{
  ℕ, ◌≡◌, ◌≢◌, ◌⊎◌, length, refl, false, none, some, List, [], ◌∷◌, String, nat_eq, string_eq,
  list_eq,
}
use delta_forge_benchmarks.Common.Sort.{sorted}
use delta_forge_benchmarks.Common.Text.{Text, codes}
use delta_forge_benchmarks.Catalog.Token.{tokens, join}
use delta_forge_benchmarks.Catalog.Qualify.{df_qualify}
use delta_forge_benchmarks.Catalog.Laws.{df_qualify-qualified}
use delta_forge_benchmarks.Catalog.Clause.{qualified}
use delta_forge_benchmarks.Catalog.Qualify.{join_statements}
use delta_forge_benchmarks.Engines.Df.{split_sql_statements, has_code}
use delta_forge_benchmarks.Engines.Df.Laws.{split_sql_statements-join_statements}
use delta_forge_benchmarks.Purge.{strip}
use delta_forge_benchmarks.Runner.Resolve.{
  data_dir, scale, substitute, placeholder_value, placeholder_at,
}
use delta_forge_benchmarks.Runner.Resolve.Laws.{Piece, char, hole, print, expand, substitute-print}
use delta_forge_benchmarks.Workloads.Digest.{
  Cell, render_row, null, other, rendered, hash_result_rows,
}
use delta_forge_benchmarks.Workloads.Digest.Laws.{digested, rendered_perm-hash_result_rows}
use delta_forge_benchmarks.Workloads.Discover.{ModuleFile}
use delta_forge_benchmarks.Steps.Workload.{Workload}

abbrev query : Text
query = codes "select t from (select * from t where a in u) x, u join v.t on t.a = 1"

abbrev tables : List Text
tables = codes "t" ∷ codes "u" ∷ []

df_qualify-qualified_example :
    (join (tokens query) ≡ query)
    × (df_qualify query tables (codes "z") (codes "s")
        ≡ join (qualified (codes "z") (codes "s") tables [] (tokens query)))
df_qualify-qualified_example = df_qualify-qualified query tables (codes "z") (codes "s")

-- `{{scale}`: the first brace begins no placeholder.
abbrev pieces : List Piece
pieces = char b'{' ∷ hole scale ∷ char b' ' ∷ hole data_dir ∷ []

substitute-print_example :
    substitute (placeholder_value (codes "/d") 10) (print pieces)
    ≡ expand (placeholder_value (codes "/d") 10) pieces
unfolding placeholder_at nat_eq
substitute-print_example = substitute-print (placeholder_value (codes "/d") 10) pieces refl

abbrev rows : List (List Cell)
rows = (other (codes "1") ∷ null ∷ []) ∷ (other (codes "2") ∷ []) ∷ []

abbrev swapped : List (List Cell)
swapped = (other (codes "2") ∷ []) ∷ (other (codes "1") ∷ null ∷ []) ∷ []

-- A digest by the length, with many collisions.
abbrev by_length : Text → ℕ
by_length s = length s

rendered_perm-hash_result_rows_example :
    Perm (rendered rows) (rendered swapped)
    ⊎ (digested rows ≢ digested swapped)
      × (by_length (digested rows) ≡ by_length (digested swapped))
unfolding hash_result_rows render_row sorted nat_eq
rendered_perm-hash_result_rows_example =
    rendered_perm-hash_result_rows by_length rows swapped refl refl refl

abbrev empty_workload : String → Workload
empty_workload name = record {
  name = name;
  description = "";
  catalog_setup_steps = [];
  setup_steps = [];
  measured_steps = [];
  cleanup_steps = [];
  cold_runs = 1;
  warm_runs = 1;
  requires_data_at_scale = none;
  applicable_engines = none;
  data_subdir = [];
  requires_input_data = false;
}

abbrev modules : List ModuleFile
modules =
    record { stem = codes "spec"; export = none }
    ∷ record { stem = codes "b"; export = some (empty_workload "b") }
    ∷ record { stem = codes "a"; export = some (empty_workload "a") }
    ∷ []

split_sql_statements-join_statements_example :
    split_sql_statements
      (join_statements (codes "CREATE SCHEMA IF NOT EXISTS z.s" ∷ codes "select 1" ∷ []))
    ≡ codes "CREATE SCHEMA IF NOT EXISTS z.s" ∷ codes "select 1" ∷ []
unfolding strip has_code nat_eq list_eq
split_sql_statements-join_statements_example =
    split_sql_statements-join_statements (codes "CREATE SCHEMA IF NOT EXISTS z.s")
      (codes "select 1" ∷ []) refl
