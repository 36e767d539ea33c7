-- ===== src/Engines/Df/Walk.antt =====
-- The walk over the rows of SHOW STATS in `run_step` of engines/df_engine.py: for a Cypher query all
-- metering rows are kept, for an SQL query the time and the number of rows.
use delta_forge_benchmarks.Common.{
  ℕ, ◌/◌, Bool, true, false, ◌&&◌, Option, none, some, String, List, [], ◌∷◌, ◌++◌, if◌then◌else◌,
  ◌==◌, nat_eq, list_eq, option_eq,
}
use delta_forge_benchmarks.Common.Dict.{Dict, insert}
use delta_forge_benchmarks.Common.Text.{Text, codes, strip_prefix}
use delta_forge_benchmarks.Engines.Output.{known, bind, parse_float, stats_num}
use delta_forge_benchmarks.Steps.{Metric, number, text}

-- A row of the long table, `r.get(...)` of each of its columns.
pub record StatsRow : Type 0 where
  pub category : Option Text
  pub metric : Option Text
  pub value : Option Text

-- What the client prints for a query; the time is that of `float(...)`.
pub record Reply : Type 0 where
  pub execution_time_ms : Option ℕ
  pub rows : Option (List StatsRow)

-- `parsed.get("rows") or []`
abbrev pub rows_of : Reply → List StatsRow
rows_of r = elim r.rows [ none ↦ [] | some rows ↦ rows ]

abbrev pub is_cell : String → String → StatsRow → Bool
is_cell cat met r = r.category == some (codes cat) && r.metric == some (codes met)

-- `int(v)` of a number that is not negative
abbrev pub int_of : Option ℕ → Option ℕ
int_of none = none
int_of (some v) = some (v / 1000)

abbrev pub or_keep : Option ℕ → Option ℕ → Option ℕ
or_keep none old = old
or_keep (some v) old = some v

-- The variables of the walk over the rows of a Cypher query.
pub record Phases : Type 0 where
  pub engine_reported_ms : Option ℕ
  pub inner_row_count : Option ℕ
  pub phase_metrics : Dict Text Metric

abbrev printed : Option Text → Text
printed none = codes "None"
printed (some s) = s

abbrev is_cypher : Option Text → Bool
is_cypher none = false
is_cypher (some c) = elim (strip_prefix (codes "cypher.") c) [ none ↦ false | some _ ↦ true ]

abbrev with_number : Text → Option ℕ → Dict Text Metric → Dict Text Metric
with_number name none d = d
with_number name (some v) d = insert name (number v) d

abbrev with_cell : StatsRow → Option Text → Dict Text Metric → Dict Text Metric
with_cell r none d = d
with_cell r (some v) d = insert (printed r.category ++ b'.' ∷ printed r.metric) (text v) d

unfoldable pub walk_cypher_row : StatsRow → Phases → Phases
unfolding stats_num
walk_cypher_row r p =
    if is_cell "time" "total_time_ms" r
    then record p { engine_reported_ms = stats_num r.value }
    else if is_cell "time" "total_engine_time_ms" r
    then record p {
      phase_metrics =
          with_number (codes "time.total_engine_time_ms") (stats_num r.value) p.phase_metrics;
    }
    else if is_cell "rows" "rows_returned" r
    then record p { inner_row_count = or_keep (int_of (stats_num r.value)) p.inner_row_count }
    else if is_cypher r.category
    then record p { phase_metrics = with_cell r (known r.value) p.phase_metrics }
    else p

unfoldable pub walk_cypher : List StatsRow → Phases → Phases
walk_cypher [] p = p
walk_cypher (r ∷ rs) p = walk_cypher rs (walk_cypher_row r p)

-- `float(v)` where the value is known; a failure is passed over.
abbrev pub plain_number : Option Text → Option ℕ
plain_number val = bind (known val) parse_float

-- The time and the number of rows of an SQL query.
unfoldable pub walk_sql_row : StatsRow → Option ℕ × Option ℕ → Option ℕ × Option ℕ
unfolding parse_float
walk_sql_row r (ms, count) =
    if is_cell "time" "total_time_ms" r
    then (or_keep (plain_number r.value) ms, count)
    else if is_cell "rows" "rows_returned" r
    then (ms, or_keep (int_of (plain_number r.value)) count)
    else (ms, count)

unfoldable pub walk_sql : List StatsRow → Option ℕ × Option ℕ → Option ℕ × Option ℕ
walk_sql [] p = p
walk_sql (r ∷ rs) p = walk_sql rs (walk_sql_row r p)
