-- ===== src/Runner/Merge.antt =====
-- The parent process of `cmd_run` in bench_runner.py: a child for each engine, one after the other, and
-- the fragments of the children merged into the manifest.
pub mod Laws
use delta_forge_benchmarks.Common.{
  Bool, true, false, Option, none, some, List, [], ◌∷◌, String, if◌then◌else◌, string_eq,
}
use delta_forge_benchmarks.Common.Dict.{Dict, insert}
use delta_forge_benchmarks.Steps.{ColdStartMetrics}
use delta_forge_benchmarks.Runner.Session.{Fragment}

-- The parts of the manifest that the merge changes.
pub record Manifest : Type 0 where
  pub engine_versions : Dict String String
  pub cold_starts : Dict String ColdStartMetrics

-- `update({k: v ... if v is not None})` with the one key of a fragment
abbrev pub update {ℓ} : {V : Type ℓ} → String → Option V → Dict String V → Dict String V
update engine none d = d
update engine (some v) d = insert engine v d

-- A fragment that is missing or that cannot be read is passed over.
abbrev pub merge_fragment : String → Option Fragment → Manifest → Manifest
merge_fragment engine none m = m
merge_fragment engine (some f) m = record m {
  engine_versions = update engine f.engine_version m.engine_versions;
  cold_starts = update engine f.cold_start m.cold_starts;
}

-- `fragment_of` reads the fragments that the children have left.
unfoldable pub merge : (String → Option Fragment) → List String → Manifest → Manifest
merge fragment_of [] m = m
merge fragment_of (engine ∷ engines) m =
    merge fragment_of engines (merge_fragment engine (fragment_of engine) m)

-- The children, whatever the exit code of each is.
module _ {W : Type 0} (child : String → W → W) where
  unfoldable pub run_children : List String → W → W
  run_children [] w = w
  run_children (engine ∷ engines) w = run_children engines (child engine w)
