-- ===== src/Runner/Data.antt =====
-- The staged data of a run (bench_runner.py): where it lies, the generators of the Delta fixtures, and
-- the check of `cmd_run` that every workload which reads has it. What the file system holds and what the
-- generators do to it are arguments; a generator that fails raises.
use delta_forge_benchmarks.Common.{
  ℕ, zero, suc, Bool, not, ◌&&◌, none, some, List, [], ◌∷◌, ◌++◌, String, if◌then◌else◌, ◌==◌,
  string_eq, nat_eq,
}
use delta_forge_benchmarks.Common.Text.{Text, codes, show, strip_prefix}
use delta_forge_benchmarks.Steps.Workload.{Workload}
use delta_forge_benchmarks.Runner.Run.{Attempt, raised, returned}

-- `s.format(scale=scale)` for a text whose only field is `{scale}`
abbrev field : Text
field = codes "scale}"

abbrev format_from : Text → ℕ → Text → Text
format_from value n [] = []
format_from value (suc n) (c ∷ s) = format_from value n s
format_from value zero (c ∷ s) =
    let literal = c ∷ format_from value zero s in
    let filled = value ++ format_from value 6 s in
    if c == b'{'
    then (elim (strip_prefix field s) [ none ↦ literal | some _ ↦ filled ])
    else literal

-- The root of the repository, behind which the data lies.
module _ (repo_root : Text) where
  unfoldable pub workload_data_dir : Workload → ℕ → Text
  workload_data_dir workload scale =
      repo_root ++ codes "/data/" ++ format_from (show scale) zero workload.data_subdir

-- The generators, by the script that is called.
pub data Generator : Type 0 where
  tpch tpch_delta tpcds_delta ssb_delta job_delta : Generator

-- The file system: what a directory is asked for, and what a generator makes of it.
pub record Files (W : Type 0) : Type 0 where
  pub has_parquet : W → Text → Bool
  pub has_entries : W → Text → Bool
  pub generate : Generator → ℕ → Text → W → Attempt W

abbrev pub then_on : {W : Type 0} → Attempt W → (W → Attempt W) → Attempt W
then_on raised f = raised
then_on (returned w) f = f w

-- How the verification of the data ends: by an exception of a generator, with the list of what is
-- missing (exit code 2), or well.
pub data Staging (W : Type 0) : Type 0 where
  failed : Staging W
  missing : List (String × Text) → Staging W
  staged : W → Staging W

module _ {W : Type 0} (files : Files W) where
  unfoldable pub ensure_tpch_delta : ℕ → Text → W → Attempt W
  ensure_tpch_delta scale data_root w =
      let pq = data_root ++ codes "/tpch_sf" ++ show scale in
      then_on (if files.has_parquet w pq then returned w else files.generate tpch scale pq w) (λ w'.
        if files.has_entries w' (pq ++ codes "_delta")
        then returned w'
        else files.generate tpch_delta scale data_root w')

  -- A workload without a generator is left as it is.
  unfoldable pub ensure_delta_fixtures : String → ℕ → Text → W → Attempt W
  ensure_delta_fixtures name scale data_root w =
      if name == "tpch_read_delta"
      then ensure_tpch_delta scale data_root w
      else if name == "tpcds_read_delta"
      then files.generate tpcds_delta scale data_root w
      else if name == "ssb_read_delta"
      then then_on (ensure_tpch_delta scale data_root w)
          (λ w'. files.generate ssb_delta scale data_root w')
      else if name == "job_read_delta"
      then files.generate job_delta scale data_root w
      else returned w

  module _ (data_dir_of : Workload → Text) (parent : Text → Text) (scale : ℕ) where
    -- Fixtures that are there are not built again.
    unfoldable pub stage : Workload → W → Attempt W
    stage wl w =
        if not wl.requires_input_data
        then returned w
        else if files.has_entries w (data_dir_of wl ++ codes "_delta")
        then returned w
        else ensure_delta_fixtures wl.name scale (parent (data_dir_of wl)) w

    unfoldable pub stage_all : List Workload → W → Attempt W
    unfolding stage
    stage_all [] w = returned w
    stage_all (wl ∷ wls) w = then_on (stage wl w) (λ w'. stage_all wls w')

    abbrev pub lacks_data : W → Workload → Bool
    lacks_data w wl = wl.requires_input_data && not (files.has_parquet w (data_dir_of wl))

    -- The workloads of the final check that have no data.
    abbrev pub without_data : W → List Workload → List (String × Text)
    without_data w [] = []
    without_data w (wl ∷ wls) =
        let rest = without_data w wls in
        if lacks_data w wl then (wl.name, data_dir_of wl) ∷ rest else rest

    abbrev pub nothing_missing : W → List (String × Text) → Staging W
    nothing_missing w [] = staged w
    nothing_missing w (m ∷ ms) = missing (m ∷ ms)

    abbrev pub final_check : List Workload → Attempt W → Staging W
    final_check wls raised = failed
    final_check wls (returned w) = nothing_missing w (without_data w wls)

    -- A dry run skips the check.
    unfoldable pub verify_data : Bool → List Workload → W → Staging W
    unfolding stage_all
    verify_data dry_run wls w = if dry_run then staged w else final_check wls (stage_all wls w)
