-- ===== src/Runner/Preflight.antt =====
-- `preflight` of bench_runner.py. Free space is in bytes, absent where the system does not tell it (NaN);
-- memory is in KB. An issue stands for its line.
use delta_forge_benchmarks.Common.{
  ℕ, ◌*◌, Bool, true, false, not, ◌&&◌, Option, none, some, List, [], ◌∷◌, ◌++◌, String, ltb, leb,
  if◌then◌else◌, ◌==◌, nat_eq, string_eq, contains, any,
}
use delta_forge_benchmarks.Common.Dict.{Dict, lookup, lookup_or}
use Prim.Native.Nat.{max}

abbrev pub scale_disk_gb_budget : Dict ℕ ℕ
scale_disk_gb_budget = (1, 4) ∷ (10, 40) ∷ (30, 120) ∷ (100, 400) ∷ (300, 1200) ∷ (1000, 4000) ∷ []

abbrev pub scale_ram_gb_recommended : Dict ℕ ℕ
scale_ram_gb_recommended = (1, 8) ∷ (10, 16) ∷ (30, 32) ∷ (100, 96) ∷ (300, 256) ∷ (1000, 512) ∷ []

-- What `collect_host_facts` tells of memory and of WSL2.
pub record HostFacts : Type 0 where
  pub cgroup_memory_max_mb : Option ℕ
  pub mem_total_kb : Option ℕ
  pub wsl2 : Bool

-- The lines: `no_space` begins with `ERROR:`.
pub data Issue : Type 0 where
  no_space tight_disk low_memory spark_default_heap under_wsl2 : Issue

abbrev pub is_error : Issue → Bool
is_error no_space = true
is_error tight_disk = false
is_error low_memory = false
is_error spark_default_heap = false
is_error under_wsl2 = false

unfoldable pub needed_gb : ℕ → ℕ
needed_gb scale = lookup_or scale (max (2 * scale) 4) scale_disk_gb_budget

abbrev pub bytes_per_gb : ℕ
bytes_per_gb = 1073741824

-- `free_gb < gb` in half gigabytes; false for NaN
abbrev pub less_than_halves : Option ℕ → ℕ → Bool
less_than_halves none halves = false
less_than_halves (some free) halves = ltb (2 * free) (halves * bytes_per_gb)

abbrev pub disk_issues : Option ℕ → ℕ → Bool → List Issue
disk_issues free needed force =
    if less_than_halves free (2 * needed) && not force
    then no_space ∷ []
    else if less_than_halves free (3 * needed)
    then tight_disk ∷ []
    else []

-- A number that is absent or 0 counts as unknown.
abbrev pub truthy : Option ℕ → Option ℕ
truthy none = none
truthy (some n) = if n == 0 then none else some n

abbrev pub available_kb : Option ℕ → Option ℕ → Option ℕ
available_kb none host = host
available_kb (some mb) host = some (mb * 1024)

abbrev pub memory_issues : Option ℕ → Option ℕ → List Issue
memory_issues none avail = []
memory_issues (some rec_gb) none = []
memory_issues (some rec_gb) (some kb) = if ltb kb (rec_gb * 1048576) then low_memory ∷ [] else []

unfoldable pub preflight : ℕ → Option ℕ → List String → HostFacts → Bool → List Issue
unfolding needed_gb
preflight scale free engines facts force =
    disk_issues free (needed_gb scale) force
    ++ memory_issues (lookup scale scale_ram_gb_recommended)
        (available_kb (truthy facts.cgroup_memory_max_mb) (truthy facts.mem_total_kb))
    ++ (if contains engines "spark-default" && leb 10 scale then spark_default_heap ∷ [] else [])
    ++ (if facts.wsl2 then under_wsl2 ∷ [] else [])

-- The test of `cmd_run` on the issues.
unfoldable pub aborts : List Issue → Bool → Bool
aborts issues force = any is_error issues && not force
