-- ===== src/Curve/Main.antt =====
-- `main` of scale_out/aggregate.py: the walk over the stream directories, and the exits. The arguments
-- are decoded already, and warnings are left out.
pub mod Laws
use delta_forge_benchmarks.Common.{
  ℕ, zero, suc, ◌+◌, Bool, true, false, not, ◌&&◌, ◌||◌, Option, none, some, List, [], ◌∷◌, ◌++◌,
  String, leb, if◌then◌else◌, ◌==◌, nat_eq, list_eq, string_eq, pair_eq, contains,
}
use delta_forge_benchmarks.Common.Dict.{Dict, keys, insert, lookup_or}
use delta_forge_benchmarks.Common.Sort.{sorted}
use delta_forge_benchmarks.Common.Text.{Text, codes, text_le}
use delta_forge_benchmarks.Runner.Run.{StepRecord}
use delta_forge_benchmarks.Stats.Percentile.{Ms}
use delta_forge_benchmarks.Curve.Streams.{parse_stream_dir}
use delta_forge_benchmarks.Curve.Timings.{load_query_timings}
use delta_forge_benchmarks.Curve.Rows.{Samples, SampleKey, samples_of, Row, aggregate}

-- An entry of the results root: `jsonl` gives the files that `*/raw/df.jsonl` matches under it, by their
-- paths, with the records of each.
pub record DirEntry : Type 0 where
  pub name : Text
  pub is_dir : Bool
  pub jsonl : Dict Text (List StepRecord)

abbrev path_le : Text × List StepRecord → Text × List StepRecord → Bool
path_le (a, _) (b, _) = text_le a b

-- `candidates[-1]`
abbrev last_of : List (Text × List StepRecord) → Option (List StepRecord)
last_of [] = none
last_of (c ∷ []) = some c.1
last_of (c ∷ d ∷ cs) = last_of (d ∷ cs)

unfoldable pub discover_jsonl : DirEntry → Option (List StepRecord)
discover_jsonl d = last_of (sorted path_le d.jsonl)

pub record Collected : Type 0 where
  pub samples : Samples
  pub streams_seen : Dict ℕ ℕ
  pub missing : List Text

-- The concurrency of a stream of the run; none for an entry that the loop skips.
abbrev run_stream : Text → List ℕ → Option (ℕ × (Text × ℕ)) → Option ℕ
run_stream run_ts n_values none = none
run_stream run_ts n_values (some (n, (ts, i))) =
    if not (ts == run_ts) || not (contains n_values n) then none else some n

unfoldable pub stream_of : Text → List ℕ → DirEntry → Option ℕ
stream_of run_ts n_values d =
    if d.is_dir then run_stream run_ts n_values (parse_stream_dir d.name) else none

-- `samples[(qid, n)].append(wall_ms)` for the timings of a stream
unfoldable pub add_samples : ℕ → Dict String Ms → Samples → Samples
add_samples n [] samples = samples
add_samples n ((qid, wall_ms) ∷ timings) samples =
    add_samples n timings (insert (qid, n) (samples_of samples qid n ++ wall_ms ∷ []) samples)

-- A stream without a timing is noted.
unfoldable pub add_stream : Text → ℕ → Dict String Ms → Collected → Collected
unfolding add_samples
add_stream name n [] c = record c { missing = c.missing ++ (name ++ codes " (empty)") ∷ [] }
add_stream name n (t ∷ timings) c = record c {
  samples = add_samples n (t ∷ timings) c.samples;
  streams_seen = insert n (lookup_or n 0 c.streams_seen + 1) c.streams_seen;
}

abbrev pub add_jsonl : Text → ℕ → Option (List StepRecord) → Collected → Collected
add_jsonl name n none c = record c { missing = c.missing ++ name ∷ [] }
add_jsonl name n (some records) c = add_stream name n (load_query_timings records) c

abbrev pub add_entry : DirEntry → Option ℕ → Collected → Collected
add_entry d none c = c
add_entry d (some n) c = add_jsonl d.name n (discover_jsonl d) c

unfoldable pub collect : Text → List ℕ → List DirEntry → Collected → Collected
unfolding stream_of discover_jsonl add_stream
collect run_ts n_values [] c = c
collect run_ts n_values (d ∷ ds) c =
    collect run_ts n_values ds (add_entry d (stream_of run_ts n_values d) c)

abbrev pub nothing_collected : Collected
nothing_collected = record { samples = []; streams_seen = []; missing = [] }

-- `sorted({...})`
abbrev insert_new : ℕ → List ℕ → List ℕ
insert_new n ns = if contains ns n then ns else n ∷ ns

abbrev distinct : List ℕ → List ℕ
distinct [] = []
distinct (n ∷ ns) = insert_new n (distinct ns)

abbrev distinct_names : List SampleKey → List String
distinct_names [] = []
distinct_names ((qid, n) ∷ ks) =
    let rest = distinct_names ks in if contains rest qid then rest else qid ∷ rest

abbrev expected : List ℕ → Dict ℕ ℕ
expected [] = []
expected (n ∷ ns) = (n, n) ∷ expected ns

-- How `main` ends: with an error in the arguments, without a sample (exit code 2), or with the curve.
pub data Outcome : Type 0 where
  bad_n_values no_records : Outcome
  curve : List Row → Outcome

abbrev entry_le : DirEntry → DirEntry → Bool
entry_le d e = text_le d.name e.name

abbrev curve_of : Collected → List ℕ → List String → Outcome
curve_of c n_values [] = no_records
curve_of c n_values (q ∷ qs) = curve (aggregate c.samples (expected n_values) (q ∷ qs))

abbrev measured_at : List ℕ → Text → List DirEntry → Outcome
measured_at [] run_ts entries = bad_n_values
measured_at (n ∷ ns) run_ts entries =
    if not (n == 1)
    then bad_n_values
    else (let c = collect run_ts (n ∷ ns) (sorted entry_le entries) nothing_collected in
        curve_of c (n ∷ ns) (distinct_names (keys c.samples)))

unfoldable pub aggregate_main : Text → List ℕ → List DirEntry → Outcome
unfolding collect
aggregate_main run_ts n_values entries = measured_at (sorted leb (distinct n_values)) run_ts entries
