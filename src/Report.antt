-- ===== src/Report.antt =====
-- The report on a run (reports/generate_report.py): the records grouped into cells, the statistics of a
-- cell, and the check that engines agree on a step's result. The lines that the report reads are the
-- records that the runner writes.
pub mod Cells
pub mod Agreement
pub mod Completeness
pub mod Tables
use delta_forge_benchmarks.Common.{
  ℕ, suc, Bool, true, false, not, ◌&&◌, Option, none, some, List, [], ◌∷◌, ◌++◌, map, String, ltb,
  if◌then◌else◌, ◌==◌, string_eq, nat_eq, pair_eq, keep, count_if, length, contains, ◌+◌, ◌/◌, ◌*◌,
}
use delta_forge_benchmarks.Common.Dict.{Dict, lookup_or, insert, values}
use delta_forge_benchmarks.Common.Sort.{sorted}
use delta_forge_benchmarks.Common.Text.{Text, codes, text_le}
use delta_forge_benchmarks.Stats.Percentile.{Ms, median, report_percentile}
use delta_forge_benchmarks.Runner.Run.{StepRecord}

pub record CellStats : Type 0 where
  pub workload : String
  pub engine : String
  pub step_id : String
  pub cold_ms : List Ms
  pub warm_ms : List Ms
  pub failures : ℕ
  pub rows_returned : List ℕ
  pub result_sha256 : Option String

-- `min(values)`
abbrev smallest : Ms → List Ms → Ms
smallest m [] = m
smallest m (x ∷ xs) = smallest (if ltb x m then x else m) xs

abbrev sum : List Ms → ℕ
sum [] = 0
sum (x ∷ xs) = x + sum xs

-- In hundredths of the unit, as the other statistics are; `none` is NaN.
unfoldable pub warm_min : CellStats → Option ℕ
warm_min c = elim c.warm_ms [ [] ↦ none | x ∷ xs ↦ some (smallest x xs * 100) ]

unfoldable pub warm_median : CellStats → Option ℕ
warm_median c = median c.warm_ms

-- The sum over the number of the timings.
unfoldable pub warm_mean : CellStats → Option (ℕ × ℕ)
warm_mean c = elim c.warm_ms [ [] ↦ none | x ∷ xs ↦ some (x + sum xs, suc (length xs)) ]

unfoldable pub warm_p95 : CellStats → Option ℕ
warm_p95 c = report_percentile c.warm_ms 95

unfoldable pub cold_median : CellStats → Option ℕ
cold_median c = median c.cold_ms

abbrev pub CellKey : Type 0
CellKey = String × (String × String)

abbrev pub key_of : StepRecord → CellKey
key_of r = (r.workload, (r.engine, r.step_id))

-- `groups[key].append(r)` on a `defaultdict(list)`
unfoldable pub add_to_group :
    Dict CellKey (List StepRecord) → StepRecord → Dict CellKey (List StepRecord)
add_to_group groups r = insert (key_of r) (lookup_or (key_of r) [] groups ++ r ∷ []) groups

unfoldable pub group :
    Dict CellKey (List StepRecord) → List StepRecord → Dict CellKey (List StepRecord)
unfolding add_to_group
group groups [] = groups
group groups (r ∷ rs) = group (add_to_group groups r) rs

abbrev pub is_ok : StepRecord → Bool
is_ok r = r.exit_code == 0

abbrev pub rows_of : List StepRecord → List ℕ
rows_of [] = []
rows_of (r ∷ rs) = let rest = rows_of rs in elim r.rows_returned [ none ↦ rest | some n ↦ n ∷ rest ]

-- `r.get("result_sha256") and r["exit_code"] == 0`; an empty text counts as none.
abbrev pub usable_sha : StepRecord → Option String
usable_sha r = elim r.result_sha256 [
  | none ↦ none
  | some h ↦ if h == "" then none else if is_ok r then some h else none
]

unfoldable pub first_sha : List StepRecord → Option String
first_sha [] = none
first_sha (r ∷ rs) =
    let rest = first_sha rs in elim (usable_sha r) [ none ↦ rest | some h ↦ some h ]

-- The timings of the successful runs that pass a test.
unfoldable pub walls : (StepRecord → Bool) → List StepRecord → List Ms
walls p [] = []
walls p (r ∷ rs) = let rest = walls p rs in if p r && is_ok r then r.wall_ms ∷ rest else rest

unfoldable pub cell : CellKey → List StepRecord → CellStats
unfolding walls first_sha
cell (wl, (eng, sid)) recs = record {
  workload = wl;
  engine = eng;
  step_id = sid;
  cold_ms = walls (λ r. r.cold) recs;
  warm_ms = walls (λ r. not r.cold) recs;
  failures = count_if (λ r. not (is_ok r)) recs;
  rows_returned = rows_of recs;
  result_sha256 = first_sha recs;
}

abbrev pub cells_of : Dict CellKey (List StepRecord) → Dict CellKey CellStats
cells_of [] = []
cells_of ((k, recs) ∷ groups) = (k, cell k recs) ∷ cells_of groups

unfoldable pub cellize : List StepRecord → Dict CellKey CellStats
unfolding group cell
cellize records = cells_of (group [] records)

abbrev pub StepKey : Type 0
StepKey = String × String

abbrev pub hash_added :
    Dict StepKey (Dict String String)
    → CellStats
    → Option String
    → Dict StepKey (Dict String String)
hash_added by_step c none = by_step
hash_added by_step c (some h) =
    if h == ""
    then by_step
    else insert (c.workload, c.step_id)
        (insert c.engine h (lookup_or (c.workload, c.step_id) [] by_step)) by_step

-- `by_step[(c.workload, c.step_id)][c.engine] = c.result_sha256` for a hash that is not empty
unfoldable pub add_hash :
    Dict StepKey (Dict String String) → CellStats → Dict StepKey (Dict String String)
add_hash by_step c = hash_added by_step c c.result_sha256

unfoldable pub collect_hashes :
    Dict StepKey (Dict String String) → List CellStats → Dict StepKey (Dict String String)
unfolding add_hash
collect_hashes by_step [] = by_step
collect_hashes by_step (c ∷ cs) = collect_hashes (add_hash by_step c) cs

-- `set(values)`, as the list of its elements
unfoldable pub unique : List String → List String
unique [] = []
unique (h ∷ hs) = let rest = unique hs in if contains rest h then rest else h ∷ rest

-- A step on which the engines disagree, with the hash of each engine in the order of the engines' names.
pub record Issue : Type 0 where
  pub step : StepKey
  pub hashes : List (String × String)

abbrev by_engine : String × String → String × String → Bool
by_engine (e, h) (f, k) = text_le (codes e) (codes f)

unfoldable pub issues : Dict StepKey (Dict String String) → List Issue
unfolding unique
issues [] = []
issues ((key, hashes) ∷ by_step) =
    let rest = issues by_step in
    if ltb 1 (length (unique (values hashes)))
    then record { step = key; hashes = sorted by_engine hashes } ∷ rest
    else rest

unfoldable pub correctness_check : Dict CellKey CellStats → List Issue
unfolding collect_hashes issues
correctness_check cells = issues (collect_hashes [] (values cells))
