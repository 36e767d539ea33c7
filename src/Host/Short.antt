-- ===== src/Host/Short.antt =====
-- `render_short` of engines/host_facts.py. The speeds of the disk probe are given as they are printed.
use delta_forge_benchmarks.Common.{
  ℕ, ◌+◌, ◌*◌, ◌/◌, ◌%◌, list_eq, Bool, true, false, ◌||◌, Option, none, some, List, [], ◌∷◌, ◌++◌,
  map, take, if◌then◌else◌, ◌==◌, nat_eq,
}
use delta_forge_benchmarks.Common.Dict.{Dict, lookup}
use delta_forge_benchmarks.Common.Text.{Text, codes, show}
use delta_forge_benchmarks.Engines.Output.{join_lines}
use delta_forge_benchmarks.Host.Cgroup.{Limits}
use delta_forge_benchmarks.Host.Cpu.{CpuInfo, CpuFreq, Collapsed, uniform, mixed}
use delta_forge_benchmarks.Host.System.{Virtualization}
use delta_forge_benchmarks.Stats.Percentile.{round_ratio}

-- What the summary looks at.
pub record Facts : Type 0 where
  pub cpu : Option CpuInfo
  pub cpufreq : CpuFreq
  pub memory : Dict Text ℕ
  pub cgroup : Limits
  pub read_mb_s : Option Text
  pub write_mb_s : Text
  pub fstype : Option Text
  pub device : Option Text
  pub virtualization : Virtualization

-- `sep.join(parts)`
unfoldable pub join_with : Text → List Text → Text
join_with sep [] = []
join_with sep (p ∷ []) = p
join_with sep (p ∷ q ∷ ps) = p ++ sep ++ join_with sep (q ∷ ps)

abbrev or_text : Option Text → Text → Text
or_text none d = d
or_text (some []) d = d
or_text (some (c ∷ s)) d = c ∷ s

abbrev get_or : Option Text → Text → Text
get_or none d = d
get_or (some s) d = s

-- A count that is missing or 0 is printed as a question mark.
abbrev count_or : Option ℕ → Text
count_or none = codes "?"
count_or (some n) = if n == 0 then codes "?" else show n

abbrev number_or_none : Option ℕ → Text
number_or_none none = codes "None"
number_or_none (some n) = show n

-- A list of texts as Python prints it, of texts without quotes and backslashes.
abbrev governor_text : Option Collapsed → Text
governor_text none = codes "None"
governor_text (some (uniform g)) = g
governor_text (some (mixed gs)) =
    codes "[" ++ join_with (codes ", ") (map (λ g. codes "'" ++ g ++ codes "'") gs) ++ codes "]"

abbrev tenths : ℕ → Text
tenths n = show (n / 10) ++ b'.' ∷ show (n % 10)

abbrev hundredths : ℕ → Text
hundredths n =
    if n % 10 == 0
    then tenths (n / 10)
    else show (n / 100) ++ b'.' ∷ (48 + n / 10 % 10) ∷ (48 + n % 10) ∷ []

abbrev cpu_field {ℓ} : {A : Type ℓ} → (CpuInfo → Option A) → Option CpuInfo → Option A
cpu_field f none = none
cpu_field f (some c) = f c

abbrev isa_of : Option CpuInfo → List Text
isa_of none = []
isa_of (some c) = c.isa

unfoldable pub cpu_line : Facts → Text
unfolding join_with show
cpu_line f =
    let model =
      or_text (cpu_field (λ c. c.model_name) f.cpu)
        (or_text (cpu_field (λ c. c.vendor) f.cpu) (codes "unknown CPU")) in
    codes "CPU:    "
    ++ model
    ++ codes " ("
    ++ count_or (cpu_field (λ c. c.physical_cores) f.cpu)
    ++ codes " physical / "
    ++ count_or (cpu_field (λ c. some c.logical_threads) f.cpu)
    ++ codes " threads, max "
    ++ number_or_none f.cpufreq.max_mhz
    ++ codes " MHz, governor="
    ++ governor_text f.cpufreq.governor
    ++ codes ", ISA="
    ++ join_with (codes ",") (take 5 (isa_of f.cpu))
    ++ codes ")"

abbrev is_positive : Option ℕ → Bool
is_positive none = false
is_positive (some n) = if n == 0 then false else true

unfoldable pub memory_lines : Facts → List Text
unfolding show
memory_lines f = elim (lookup (codes "MemTotal") f.memory) [
  | none ↦ []
  | some kb ↦
      if kb == 0
      then []
      else (codes "Memory: " ++ tenths (round_ratio (kb * 10) (1024 * 1024)) ++ codes " GiB total")
        ∷ []
]

abbrev printed : (ℕ → Text) → Option ℕ → Text
printed f none = codes "?"
printed f (some n) = f n

unfoldable pub cgroup_lines : Facts → List Text
unfolding show
cgroup_lines f =
    let cg = f.cgroup in
    if is_positive cg.cpu_quota_cores || is_positive cg.memory_max_mb
    then (codes "Cgroup: cpu="
        ++ printed (λ n. hundredths n) cg.cpu_quota_cores
        ++ codes " cores  memory="
        ++ printed (λ n. tenths n) cg.memory_max_mb
        ++ codes " MiB  ("
        ++ get_or cg.path []
        ++ codes ")")
      ∷ []
    else []

unfoldable pub disk_lines : Facts → List Text
disk_lines f = elim f.read_mb_s [
  | none ↦ []
  | some speed ↦
      (codes "Disk:   read "
        ++ speed
        ++ codes " MB/s  write "
        ++ f.write_mb_s
        ++ codes " MB/s  ("
        ++ get_or f.fstype (codes "?")
        ++ codes " on "
        ++ get_or f.device (codes "?")
        ++ codes ")")
      ∷ []
]

abbrev is_hinted : Option Bool → Bool
is_hinted none = false
is_hinted (some b) = b

unfoldable pub virt_lines : Facts → List Text
unfolding join_with
virt_lines f =
    let v = f.virtualization in
    let wsl = if v.wsl2 then codes "WSL2" ∷ [] else [] in
    let container = if is_hinted v.container_hint then codes "container" ∷ [] else [] in
    let vm =
      if v.hypervisor_flag
      then (codes "VM (" ++ or_text v.systemd_detect_virt (codes "hypervisor") ++ codes ")") ∷ []
      else [] in
    elim (wsl ++ container ++ vm) [
      | [] ↦ []
      | e ∷ es ↦ (codes "Virt:   " ++ join_with (codes ", ") (e ∷ es)) ∷ []
    ]

unfoldable pub render_short : Facts → Text
unfolding cpu_line memory_lines cgroup_lines disk_lines virt_lines
render_short f =
    join_lines (cpu_line f ∷ (memory_lines f ++ cgroup_lines f ++ disk_lines f ++ virt_lines f))
