-- ===== src/Host/System.antt =====
-- `os_facts`, `java_facts` and `virtualization_facts` of engines/host_facts.py: what they read out of
-- files and of the output of commands.
use delta_forge_benchmarks.Common.{
  Bool, ◌||◌, Option, none, some, List, [], ◌∷◌, take, if◌then◌else◌, ◌==◌, nat_eq, list_eq,
}
use delta_forge_benchmarks.Catalog.Qualify.{lower}
use delta_forge_benchmarks.Common.Dict.{Dict, insert}
use delta_forge_benchmarks.Common.Lines.{splitlines}
use delta_forge_benchmarks.Common.Text.{Text, codes}
use delta_forge_benchmarks.Common.Words.{partition, has_char, occurs}
use delta_forge_benchmarks.Purge.{strip}

-- `s.strip('"')`
unfoldable pub lstrip_quotes : Text → Text
lstrip_quotes [] = []
lstrip_quotes (c ∷ s) = let rest = lstrip_quotes s in if c == b'"' then rest else c ∷ s

unfoldable pub rstrip_quotes : Text → Text
rstrip_quotes [] = []
rstrip_quotes (c ∷ s) =
    let rest = rstrip_quotes s in
    if rest == [] then (if c == b'"' then [] else c ∷ []) else c ∷ rest

-- The assignments of /etc/os-release.
unfoldable pub os_release : List Text → Dict Text Text → Dict Text Text
unfolding partition strip lstrip_quotes rstrip_quotes
os_release [] kv = kv
os_release (l ∷ ls) kv =
    let (k, v) = partition b'=' l in
    os_release ls (
      if has_char b'=' l then insert (strip k) (rstrip_quotes (lstrip_quotes (strip v))) kv else kv)

abbrev truthy : Option Text → Option Text
truthy none = none
truthy (some []) = none
truthy (some (c ∷ s)) = some (c ∷ s)

-- The first lines of `java -version`: of its standard output if the command succeeds, else of what a
-- second call prints, where it can be run.
abbrev java_text : Option Text → Option (Text × Text) → Option Text
java_text (some out) second = some out
java_text none none = none
java_text none (some (stdout, [])) = some stdout
java_text none (some (stdout, c ∷ stderr)) = some (c ∷ stderr)

unfoldable pub java_version : Option Text → Option (Text × Text) → Option (List Text)
unfolding strip splitlines
java_version first second = elim (truthy (java_text first second)) [
  | none ↦ none
  | some ver ↦ some (take 3 (splitlines (strip ver)))
]

pub record Virtualization : Type 0 where
  pub wsl2 : Bool
  pub container_hint : Option Bool
  pub hypervisor_flag : Bool
  pub systemd_detect_virt : Option Text
  pub dmi_sys_vendor : Option Text

unfoldable pub ends_with : Text → Text → Bool
ends_with p [] = p == []
ends_with p (c ∷ s) = p == (c ∷ s) || ends_with p s

abbrev or_empty : Option Text → Text
or_empty none = []
or_empty (some s) = s

abbrev stripped : Option Text → Option Text
stripped none = none
stripped (some s) = some (strip s)

-- `docker|lxc|kubepods|containerd` somewhere in the text.
abbrev hint_of : Option Text → Option Bool
hint_of none = none
hint_of (some cg) = some (
    occurs (codes "docker") cg
    || (occurs (codes "lxc") cg
        || (occurs (codes "kubepods") cg || occurs (codes "containerd") cg)))

unfoldable pub virtualization_facts :
    Text → Text → Option Text → Option Text → Option Text → Option Text → Virtualization
unfolding lower occurs ends_with strip
virtualization_facts release version cgroup cpuinfo detect vendor =
    let rel = lower release in
    let ver = lower version in
    let info = or_empty cpuinfo in
    record {
      wsl2 =
          occurs (codes "microsoft") rel || (occurs (codes "wsl") rel || occurs (codes "wsl") ver);
      container_hint = hint_of (truthy cgroup);
      hypervisor_flag = occurs (codes " hypervisor ") info || ends_with (codes " hypervisor") info;
      systemd_detect_virt = stripped detect;
      dmi_sys_vendor = stripped (truthy vendor);
    }
