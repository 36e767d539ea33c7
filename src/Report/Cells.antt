-- ===== src/Report/Cells.antt =====
-- The cells of `cellize` in reports/generate_report.py, against the records of a key.
use mathlib.Core.List.{append_assoc}
use delta_forge_benchmarks.Common.{
  ◌≡◌, refl, ap, ◌∙◌, Bool, true, false, Option, none, some, List, [], ◌∷◌, ◌++◌, if◌then◌else◌,
  map, length, not, ◌&&◌, ◌==◌, count_if, arith, String, nat_eq, string_eq, pair_eq, keep,
  Bool-cases, ==-sound, inl, inr, sym, ==_refl, &&-split, &&-join,
}
use delta_forge_benchmarks.Common.Dict.{Dict, lookup, lookup-insert}
use delta_forge_benchmarks.Runner.Run.{StepRecord}
use delta_forge_benchmarks.Report.{
  CellKey, CellStats, walls, first_sha, rows_of, key_of, cell, cells_of, group, add_to_group,
  cellize,
}

-- A list of records behind one that may be absent.
abbrev behind : Option (List StepRecord) → List StepRecord → Option (List StepRecord)
behind o [] = o
behind none (r ∷ rs) = some (r ∷ rs)
behind (some l) (r ∷ rs) = some (l ++ r ∷ rs)

abbrev belongs : CellKey → StepRecord → Bool
belongs k r = k == key_of r

append_found :
    (o : Option (List StepRecord)) (r : StepRecord)
    → some ((elim o [ none ↦ [] | some v ↦ v ]) ++ r ∷ []) ≡ behind o (r ∷ [])
append_found none r = refl
append_found (some l) r = refl

lookup-add_to_group :
    (k : CellKey) (groups : Dict CellKey (List StepRecord)) (r : StepRecord)
    → lookup k (add_to_group groups r)
      ≡ behind (lookup k groups) (if belongs k r then r ∷ [] else [])
unfolding add_to_group
lookup-add_to_group k groups r = elim (Bool-cases (k == key_of r)) [
  | inl same ↦
      rw (lookup-insert, same, ==-sound k (key_of r) same)
        (append_found (lookup (key_of r) groups) r)
  | inr other ↦ rw (lookup-insert, other) refl
]

behind-behind :
    (o : Option (List StepRecord)) (b : Bool) (r : StepRecord) (rs : List StepRecord)
    → behind (behind o (if b then r ∷ [] else [])) rs ≡ behind o (if b then r ∷ rs else rs)
behind-behind o true r [] = refl
behind-behind none true r (s ∷ rs) = refl
behind-behind (some l) true r (s ∷ rs) = ap some (append_assoc l (r ∷ []) (s ∷ rs))
behind-behind o false r rs = refl

lookup-group :
    (k : CellKey) (rs : List StepRecord) (groups : Dict CellKey (List StepRecord))
    → lookup k (group groups rs) ≡ behind (lookup k groups) (keep (belongs k) rs)
unfolding group
lookup-group k [] groups = refl
lookup-group k (r ∷ rs) groups =
    lookup-group k rs (add_to_group groups r)
    ∙ ap (λ o. behind o (keep (belongs k) rs)) (lookup-add_to_group k groups r)
    ∙ behind-behind (lookup k groups) (belongs k r) r (keep (belongs k) rs)

lookup-cells_of :
    (k : CellKey) (groups : Dict CellKey (List StepRecord))
    → lookup k (cells_of groups)
      ≡ elim (lookup k groups) [ none ↦ none | some recs ↦ some (cell k recs) ]
lookup-cells_of k [] = refl
lookup-cells_of k ((j, recs) ∷ groups) = elim (Bool-cases (k == j)) [
  | inl same ↦ rw (same, ==-sound k j same) refl
  | inr other ↦ rw other (lookup-cells_of k groups)
]

-- What is given, without the gaps.
abbrev given {ℓ} : {A : Type ℓ} → List (Option A) → List A
given [] = []
given (none ∷ os) = given os
given (some a ∷ os) = a ∷ given os

abbrev first {ℓ} : {A : Type ℓ} → List A → Option A
first [] = none
first (a ∷ rest) = some a

-- The runs of one step of a workload on an engine.
abbrev pub is_run_of : String → String → String → StepRecord → Bool
is_run_of workload engine step_id r =
    workload == r.workload && (engine == r.engine && step_id == r.step_id)

abbrev succeeded : StepRecord → Bool
succeeded r = r.exit_code == 0

abbrev has_digest : Option String → Bool
has_digest none = false
has_digest (some h) = not (h == "")

-- The statistics that such runs stand for.
abbrev pub statistics : String → String → String → List StepRecord → CellStats
statistics workload engine step_id runs = record {
  workload = workload;
  engine = engine;
  step_id = step_id;
  cold_ms = map (λ r. r.wall_ms) (keep (λ r. r.cold && r.exit_code == 0) runs);
  warm_ms = map (λ r. r.wall_ms) (keep (λ r. not r.cold && r.exit_code == 0) runs);
  failures = length (keep (λ r. not (r.exit_code == 0)) runs);
  rows_returned = given (map (λ r. r.rows_returned) runs);
  result_sha256 = first (
      given
        (map (λ r. r.result_sha256) (keep (λ r. succeeded r && has_digest r.result_sha256) runs)));
}

walls-keep :
    (p : StepRecord → Bool) (rs : List StepRecord)
    → walls p rs ≡ map (λ r. r.wall_ms) (keep (λ r. p r && r.exit_code == 0) rs)
unfolding walls
walls-keep p [] = refl
walls-keep p (r ∷ rs) = ground (arith, walls-keep p rs)

count_if-keep : (p : StepRecord → Bool) (rs : List StepRecord) → count_if p rs ≡ length (keep p rs)
count_if-keep p [] = refl
count_if-keep p (r ∷ rs) = ground (arith, count_if-keep p rs)

rows_of-given : (rs : List StepRecord) → rows_of rs ≡ given (map (λ r. r.rows_returned) rs)
rows_of-given [] = refl
rows_of-given (r ∷ rs) = ground (arith, rows_of-given rs)

abbrev shas : List StepRecord → List String
shas rs =
    given (map (λ r. r.result_sha256) (keep (λ r. succeeded r && has_digest r.result_sha256) rs))

first_sha-first : (rs : List StepRecord) → first_sha rs ≡ first (shas rs)
unfolding first_sha
first_sha-first [] = refl
first_sha-first (r ∷ rs) = ground (arith, first_sha-first rs)

cell-statistics :
    (workload engine step_id : String) (rs : List StepRecord)
    → cell (workload, (engine, step_id)) rs ≡ statistics workload engine step_id rs
unfolding cell
cell-statistics workload engine step_id rs = λ i. record {
  workload = workload;
  engine = engine;
  step_id = step_id;
  cold_ms = walls-keep (λ r. r.cold) rs i;
  warm_ms = walls-keep (λ r. not r.cold) rs i;
  failures = count_if-keep (λ r. not (r.exit_code == 0)) rs i;
  rows_returned = rows_of-given rs i;
  result_sha256 = first_sha-first rs i;
}

same_truth : (p q : Bool) → (p ≡ true → q ≡ true) → (q ≡ true → p ≡ true) → p ≡ q
same_truth true q h k = sym (h refl)
same_truth false true h k = k refl
same_truth false false h k = refl

same_key : (k l : CellKey) → k ≡ l → (k == l) ≡ true
same_key k l p = ap (λ m. k == m) (sym p) ∙ ==_refl k

same_name : (s t : String) → s ≡ t → (s == t) ≡ true
same_name s t p = ap (λ u. s == u) (sym p) ∙ ==_refl s

belongs-is_run_of :
    (workload engine step_id : String) (r : StepRecord)
    → belongs (workload, (engine, step_id)) r ≡ is_run_of workload engine step_id r
belongs-is_run_of workload engine step_id r =
    same_truth _ _
      (λ h.
        let p = ==-sound k (key_of r) h in
        &&-join _ _ (same_name workload r.workload (ap (λ t. t.0) p)) (
          &&-join _ _ (same_name engine r.engine (ap (λ t. t.1.0) p))
            (same_name step_id r.step_id (ap (λ t. t.1.1) p))))
      (λ h.
        let (a, later) =
          &&-split (workload == r.workload) (engine == r.engine && step_id == r.step_id) h in
        let (b, c) = &&-split (engine == r.engine) (step_id == r.step_id) later in
        same_key k (key_of r) (λ i. (
          ==-sound workload r.workload a i,
          (==-sound engine r.engine b i, ==-sound step_id r.step_id c i),
        )))
  where
    k : CellKey
    k = (workload, (engine, step_id))

abbrev pub cell_of_runs : String → String → String → List StepRecord → Option CellStats
cell_of_runs workload engine step_id [] = none
cell_of_runs workload engine step_id (r ∷ rs) = some (statistics workload engine step_id (r ∷ rs))

-- The cell of a step of a workload on an engine is made of exactly its runs, in their order: the times of
-- the cold and of the warm runs with exit code 0, the number of the others, the row counts, and the first
-- digest that is not empty of a run with exit code 0. There is none without a run. Whether the purge before
-- a cold run was verified plays no role.
pub lookup-cellize :
    (workload engine step_id : String) (records : List StepRecord)
    → lookup (workload, (engine, step_id)) (cellize records)
      ≡ cell_of_runs workload engine step_id (keep (is_run_of workload engine step_id) records)
unfolding cellize
lookup-cellize workload engine step_id records =
    let k : CellKey = (workload, (engine, step_id)) in
    lookup-cells_of k (group [] records)
    ∙ ap (λ o. elim o [ none ↦ none | some recs ↦ some (cell k recs) ]) (lookup-group k records [])
    ∙ found (keep (belongs k) records)
    ∙ ap (λ p. cell_of_runs workload engine step_id (keep p records))
        (λ i r. belongs-is_run_of workload engine step_id r i)
  where
    found :
        (rs : List StepRecord)
        → (elim (behind none rs) [
          | none ↦ none
          | some recs ↦ some (cell (workload, (engine, step_id)) recs)
        ])
          ≡ cell_of_runs workload engine step_id rs
    found [] = refl
    found (r ∷ rs) = ap some (cell-statistics workload engine step_id (r ∷ rs))
