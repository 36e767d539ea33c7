-- ===== src/Host/Memory.antt =====
-- `memory_facts` of engines/host_facts.py. Amounts are in kilobytes.
use delta_forge_benchmarks.Common.{
  ℕ, ◌*◌, ◌||◌, Option, none, some, List, [], ◌∷◌, contains, if◌then◌else◌, ◌==◌, nat_eq, list_eq,
}
use delta_forge_benchmarks.Common.Dict.{Dict, insert}
use delta_forge_benchmarks.Common.Lines.{splitlines}
use delta_forge_benchmarks.Common.Text.{Text, codes}
use delta_forge_benchmarks.Common.Words.{partition}
use delta_forge_benchmarks.Curve.Streams.{number}
use delta_forge_benchmarks.Purge.{strip, lstrip}

-- The unit of `^(\d+)\s*([kMG]?B)?$`, "kB" where there is none; none where the text does not match.
unfoldable pub unit_of : Text → Option Text
unfolding lstrip
unit_of s =
    let u = lstrip s in
    if u == []
    then some (codes "kB")
    else if u == codes "kB" || u == codes "MB" || u == codes "GB" || u == codes "B"
    then some u
    else none

unfoldable pub in_kb : ℕ → Text → ℕ
in_kb n unit =
    if unit == codes "kB" then n else n * (if unit == codes "MB" then 1024 else 1024 * 1024)

abbrev amount_of : Option (ℕ × Text) → Option ℕ
amount_of none = none
amount_of (some (n, rest)) = elim (unit_of rest) [ none ↦ none | some u ↦ some (in_kb n u) ]

unfoldable pub amount : Text → Option ℕ
unfolding number unit_of in_kb
amount v = amount_of (number v)

abbrev pub kept_keys : List Text
kept_keys =
    codes "MemTotal"
    ∷ codes "MemFree"
    ∷ codes "MemAvailable"
    ∷ codes "Buffers"
    ∷ codes "Cached"
    ∷ codes "SwapTotal"
    ∷ codes "SwapFree"
    ∷ codes "Dirty"
    ∷ codes "HugePages_Total"
    ∷ []

abbrev add_amount : Text → Option ℕ → Dict Text ℕ → Dict Text ℕ
add_amount k none out = out
add_amount k (some kb) out = if contains kept_keys k then insert k kb out else out

-- One line; a value that is empty does not match either.
unfoldable pub add_line : Text → Dict Text ℕ → Dict Text ℕ
unfolding amount partition strip
add_line line out = let (k, v) = partition b':' line in add_amount k (amount (strip v)) out

unfoldable pub add_lines : List Text → Dict Text ℕ → Dict Text ℕ
unfolding add_line
add_lines [] out = out
add_lines (l ∷ ls) out = add_lines ls (add_line l out)

unfoldable pub memory_facts : Option Text → Dict Text ℕ
unfolding add_lines splitlines
memory_facts none = []
memory_facts (some text) = add_lines (splitlines text) []
