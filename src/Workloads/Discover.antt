-- ===== src/Workloads/Discover.antt =====
-- `discover` of workloads/spec.py: the registry of the workloads. A module of the directory stands with
-- what it exports as `WORKLOAD`, if that is a workload.
use delta_forge_benchmarks.Common.{
  Bool, ◌||◌, Option, none, some, List, [], ◌∷◌, ◌++◌, String, if◌then◌else◌, ◌==◌, nat_eq, list_eq,
  string_eq,
}
use delta_forge_benchmarks.Common.Dict.{Dict, lookup, insert}
use delta_forge_benchmarks.Common.Sort.{sorted}
use delta_forge_benchmarks.Common.Text.{Text, codes, text_le}
use delta_forge_benchmarks.Steps.Workload.{Workload}
use delta_forge_benchmarks.Runner.Run.{Attempt, raised, returned}

pub record ModuleFile : Type 0 where
  pub stem : Text
  pub export : Option Workload

abbrev pub is_skipped : ModuleFile → Bool
is_skipped m = m.stem == codes "__init__" || m.stem == codes "spec"

-- A name that is taken raises.
abbrev pub add_new :
    Workload → Option Workload → Dict String Workload → Attempt (Dict String Workload)
add_new wl none out = returned (insert wl.name wl out)
add_new wl (some _) out = raised

abbrev pub add_export : Option Workload → Dict String Workload → Attempt (Dict String Workload)
add_export none out = returned out
add_export (some wl) out = add_new wl (lookup wl.name out) out

abbrev and_then :
    Attempt (Dict String Workload)
    → (Dict String Workload → Attempt (Dict String Workload))
    → Attempt (Dict String Workload)
and_then raised f = raised
and_then (returned out) f = f out

unfoldable pub discover_from :
    List ModuleFile → Dict String Workload → Attempt (Dict String Workload)
discover_from [] out = returned out
discover_from (m ∷ ms) out =
    let skip = discover_from ms out in
    let more = and_then (add_export m.export out) (λ out'. discover_from ms out') in
    if is_skipped m then skip else more

-- `sorted(workloads_dir.glob("*.py"))`
abbrev pub file_le : ModuleFile → ModuleFile → Bool
file_le m n = text_le (m.stem ++ codes ".py") (n.stem ++ codes ".py")

unfoldable pub discover : List ModuleFile → Attempt (Dict String Workload)
unfolding discover_from
discover modules = discover_from (sorted file_le modules) []

-- The registry of these workloads.
abbrev pub by_name : List Workload → Dict String Workload
by_name [] = []
by_name (wl ∷ wls) = (wl.name, wl) ∷ by_name wls
