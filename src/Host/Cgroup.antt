-- ===== src/Host/Cgroup.antt =====
-- `cgroup_limits` of engines/host_facts.py. Cores are in hundredths and megabytes in tenths.
use delta_forge_benchmarks.Common.{
  ℕ, ◌*◌, Bool, true, false, Option, none, some, List, [], ◌∷◌, ◌++◌, if◌then◌else◌, ◌==◌, nat_eq,
}
use delta_forge_benchmarks.Common.Lines.{splitlines}
use delta_forge_benchmarks.Common.Text.{Text, codes, strip_prefix}
use delta_forge_benchmarks.Common.Words.{split_words, is_digits}
use delta_forge_benchmarks.Curve.Streams.{read}
use delta_forge_benchmarks.Engines.Output.{bind}
use delta_forge_benchmarks.Purge.{strip}
use delta_forge_benchmarks.Stats.Percentile.{round_ratio}

pub data Period : Type 0 where
  number : ℕ → Period
  text : Text → Period

pub record Limits : Type 0 where
  pub path : Option Text
  pub cpu_quota : Option Text
  pub cpu_period_us : Option Period
  pub cpu_quota_cores : Option ℕ
  pub memory_max : Option Text
  pub memory_max_mb : Option ℕ

abbrev pub no_limits : Limits
no_limits = record {
  path = none;
  cpu_quota = none;
  cpu_period_us = none;
  cpu_quota_cores = none;
  memory_max = none;
  memory_max_mb = none;
}

-- What is known so far, and whether an exception ends the function: it is caught, and the rest is missing.
abbrev pub Partial : Type 0
Partial = Limits × Bool

abbrev non_empty : Text → Option Text
non_empty [] = none
non_empty (c ∷ s) = some (c ∷ s)

-- `^0::(.+)$` on the lines
unfoldable pub v2_path : List Text → Option Text
v2_path [] = none
v2_path (l ∷ ls) = elim (bind (strip_prefix (codes "0::") l) non_empty) [
  | none ↦ v2_path ls
  | some p ↦ some p
]

unfoldable pub int_of : Text → ℕ
unfolding read
int_of s = (read 0 s).0

abbrev period_of : Text → Period
period_of s = if is_digits s then number (int_of s) else text s

-- `round(int(quota) / int(period), 2)`: it raises where the period is no number or 0.
abbrev cores_of : ℕ → Text → Option ℕ
cores_of quota period =
    if is_digits period
    then (if int_of period == 0 then none else some (round_ratio (quota * 100) (int_of period)))
    else none

abbrev with_cores : Text → Text → Limits → Partial
with_cores quota period out =
    if is_digits quota
    then (elim (cores_of (int_of quota) period) [
      | none ↦ (out, true)
      | some c ↦ (record out { cpu_quota_cores = some c }, false)
    ])
    else (out, false)

-- The two parts of cpu.max.
abbrev with_quota : List Text → Limits → Partial
with_quota (quota ∷ period ∷ []) out =
    with_cores quota period
      (record out { cpu_quota = some quota; cpu_period_us = some (period_of period) })
with_quota _ out = (out, false)

unfoldable pub add_cpu : Option Text → Limits → Partial
unfolding split_words int_of
add_cpu cpu_max out = elim (bind cpu_max non_empty) [
  | none ↦ (out, false)
  | some s ↦ with_quota (split_words s) out
]

abbrev with_memory : Text → Limits → Limits
with_memory s out = record out {
  memory_max = some s;
  memory_max_mb = if is_digits s then some (round_ratio (int_of s * 10) (1024 * 1024)) else none;
}

unfoldable pub add_memory : Option Text → Limits → Limits
unfolding int_of strip
add_memory mem_max out = elim (bind mem_max non_empty) [
  | none ↦ out
  | some s ↦ with_memory (strip s) out
]

abbrev pub unless_raised : Partial → Option Text → Limits
unless_raised (out, true) mem_max = out
unless_raised (out, false) mem_max = add_memory mem_max out

-- `lstrip("/")`
unfoldable pub without_slashes : Text → Text
without_slashes [] = []
without_slashes (c ∷ s) = let rest = without_slashes s in if c == b'/' then rest else c ∷ s

-- `str(Path("/sys/fs/cgroup") / path)`
abbrev below_root : Text → Text
below_root [] = codes "/sys/fs/cgroup"
below_root (c ∷ s) = codes "/sys/fs/cgroup/" ++ c ∷ s

-- The two files are read below the directory of the group.
unfoldable pub cgroup_limits : Option Text → (Text → Text → Option Text) → Limits
unfolding v2_path splitlines strip without_slashes add_cpu add_memory
cgroup_limits my_cg read_file = elim (bind my_cg (λ s. v2_path (splitlines s))) [
  | none ↦ no_limits
  | some p ↦
      let base = below_root (without_slashes (strip p)) in
      unless_raised
        (add_cpu (read_file base (codes "cpu.max")) (record no_limits { path = some base }))
        (read_file base (codes "memory.max"))
]
