-- ===== src/Runner/Menu.antt =====
-- `_ask` and `run_menu` of bench_runner.py, on the lines that the operator types; an absent line is the
-- end of the input. Prompts are left out. Numbers are those of ASCII digits, with a sign.
pub mod Laws
use delta_forge_benchmarks.Common.{
  ℕ, zero, suc, ◌+◌, ◌-◌, ◌*◌, Bool, true, false, not, ◌&&◌, ◌||◌, Option, none, some, List, [],
  ◌∷◌, ◌++◌, map, if◌then◌else◌, ◌==◌, nat_eq, list_eq, leb, ltb, keep, all, length, get_or,
  get_elem?,
}
use delta_forge_benchmarks.Common.Text.{Text, codes}
use delta_forge_benchmarks.Purge.{strip}
use delta_forge_benchmarks.Runner.Select.{ℤ, pos, negsuc, split}

-- `int(s)`
abbrev digits_of : ℕ → Text → Option ℕ
digits_of acc [] = some acc
digits_of acc (c ∷ s) =
    let rest = digits_of (acc * 10 + (c - 48)) s in if leb 48 c && leb c 57 then rest else none

abbrev unsigned : Text → Option ℕ
unsigned [] = none
unsigned (c ∷ s) = digits_of 0 (c ∷ s)

abbrev negated : Option ℕ → Option ℤ
negated none = none
negated (some zero) = some (pos zero)
negated (some (suc n)) = some (negsuc n)

abbrev as_pos : Option ℕ → Option ℤ
as_pos none = none
as_pos (some n) = some (pos n)

abbrev signed : Text → Option ℤ
signed [] = none
signed (c ∷ s) =
    if c == 45
    then negated (unsigned s)
    else if c == 43
    then as_pos (unsigned s)
    else as_pos (unsigned (c ∷ s))

unfoldable pub int : Text → Option ℤ
int s = signed (strip s)

-- The answer to a prompt: the default at the end of the input or for a blank line.
abbrev pub answer : Option Text → Text → Text
answer none default = default
answer (some line) default = if strip line == [] then default else strip line

-- The next line, and the lines behind it.
abbrev pub next_line : List Text → Option Text × List Text
next_line [] = (none, [])
next_line (line ∷ lines) = (some line, lines)

abbrev pub on_choice {ℓ} : {A : Type ℓ} → Option A → List Text → A × List Text → A × List Text
on_choice none rest again = again
on_choice (some a) rest again = (a, rest)

-- Three tries, and what is kept when none gives a choice.
unfoldable pub tries {ℓ} :
    {A : Type ℓ} → (Text → Option A) → Text → A → ℕ → List Text → A × List Text
tries choose default kept zero lines = (kept, lines)
tries choose default kept (suc k) lines =
    let (line, rest) = next_line lines in
    on_choice (choose (answer line default)) rest (tries choose default kept k rest)

-- `",".join(names)`
abbrev pub join_commas : List Text → Text
join_commas [] = []
join_commas (w ∷ []) = w
join_commas (w ∷ v ∷ ws) = w ++ 44 ∷ join_commas (v ∷ ws)

abbrev lower_code : ℕ → ℕ
lower_code c = if leb 65 c && leb c 90 then c + 32 else c

-- `[int(x) for x in ... if x]`
abbrev picks_of : List Text → Option (List ℤ)
picks_of [] = some []
picks_of (w ∷ ws) =
    let rest = picks_of ws in
    if w == []
    then rest
    else elim (int w) [ none ↦ none | some n ↦ elim rest [ none ↦ none | some ns ↦ some (n ∷ ns) ] ]

abbrev pub in_menu : ℕ → ℤ → Bool
in_menu k (pos n) = leb 1 n && leb n k
in_menu k (negsuc n) = false

abbrev pub at_pick : List Text → ℤ → Text
at_pick names (pos n) = get_or names (n - 1) []
at_pick names (negsuc n) = []

abbrev chosen_picks : List Text → Option (List ℤ) → Option Text
chosen_picks names none = none
chosen_picks names (some []) = none
chosen_picks names (some (n ∷ ns)) =
    if all (in_menu (length names)) (n ∷ ns)
    then some (join_commas (map (at_pick names) (n ∷ ns)))
    else none

-- A number, a list of numbers, or `a`.
unfoldable pub choose_workloads : List Text → Text → Option Text
unfolding int
choose_workloads names raw =
    let low = map lower_code raw in
    if low == codes "a" || low == codes "all"
    then some (join_commas names)
    else chosen_picks names (picks_of (split (keep (λ c. not (c == 32)) raw)))

abbrev pub engine_presets : List Text
engine_presets = codes "df" ∷ codes "df,duckdb" ∷ codes "df,duckdb,spark-default,spark-tuned" ∷ []

abbrev pub picked_preset : Option ℤ → Option Text
picked_preset none = none
picked_preset (some (pos n)) = if leb 1 n && leb n 3 then get_elem? engine_presets (n - 1) else none
picked_preset (some (negsuc n)) = none

unfoldable pub choose_engines : Text → Option Text
unfolding int
choose_engines raw = picked_preset (int raw)

abbrev pub positive : Option ℤ → Option ℕ
positive none = none
positive (some (pos n)) = if leb 1 n then some n else none
positive (some (negsuc n)) = none

unfoldable pub choose_scale : Text → Option ℕ
unfolding int
choose_scale raw = positive (int raw)

-- The overrides that the menu gives; no numbers of runs for the full depth.
pub record MenuChoice : Type 0 where
  pub workloads : Text
  pub engines : Text
  pub scale : ℕ
  pub cold_runs : Option ℤ
  pub warm_runs : Option ℤ

-- `run_menu` for the names of the benchmarks, of which there is one at least.
unfoldable pub run_menu : Text → List Text → List Text → MenuChoice
unfolding tries choose_workloads choose_engines choose_scale
run_menu first others lines =
    let (workloads, lines1) = tries (choose_workloads (first ∷ others)) (codes "1") first 3 lines in
    let (engines, lines2) =
      tries choose_engines (codes "3") (codes "df,duckdb,spark-default,spark-tuned") 3 lines1 in
    let (scale, lines3) = tries choose_scale (codes "1") 1 3 lines2 in
    let quick = not (strip (answer (next_line lines3).0 (codes "1")) == codes "2") in
    record {
      workloads = workloads;
      engines = engines;
      scale = scale;
      cold_runs = if quick then some (pos 1) else none;
      warm_runs = if quick then some (pos 1) else none;
    }
