-- ===== src/Runner/Select.antt =====
-- The selection of `cmd_run` in bench_runner.py: what runs, with which numbers of runs, on which engines.
-- The override writes the fields of the shared workloads, each of which it sets alike, so it is a map.
pub mod Laws
use delta_forge_benchmarks.Common.{
  ℕ, zero, ◌+◌, Bool, true, false, not, ◌||◌, Option, none, some, List, [], ◌∷◌, ◌++◌, String, map,
  if◌then◌else◌, ◌==◌, nat_eq, list_eq, keep, contains,
}
use delta_forge_benchmarks.Common.Dict.{Dict, values}
use delta_forge_benchmarks.Common.Text.{Text, codes}
use delta_forge_benchmarks.Purge.{strip}
use delta_forge_benchmarks.Steps.Workload.{Workload}

-- An integer of the command line.
pub data ℤ : Type 0 where
  pos : ℕ → ℤ
  negsuc : ℕ → ℤ

pub record RunArgs : Type 0 where
  pub workloads : Option Text
  pub engines : Option Text
  pub cold_runs : Option ℤ
  pub warm_runs : Option ℤ

-- The first word up to a comma, and the others.
abbrev on_comma : ℕ → Text × List Text → Text × List Text
on_comma c (w, ws) = if c == 44 then ([], w ∷ ws) else (c ∷ w, ws)

abbrev pub split_first : Text → Text × List Text
split_first [] = ([], [])
split_first (c ∷ s) = on_comma c (split_first s)

-- `s.split(",")`
abbrev pub split : Text → List Text
split s = let (w, ws) = split_first s in w ∷ ws

abbrev is_given : Text → Bool
is_given [] = false
is_given (c ∷ s) = true

-- `[w.strip() for w in s.split(",") if w.strip()]`
unfoldable pub names_of : Text → List Text
names_of s = keep is_given (map strip (split s))

abbrev pub default_engines : Text
default_engines = codes "df,duckdb,spark-default,spark-tuned"

abbrev pub default_workloads : Text
default_workloads =
    codes "tpch_read_delta,tpcds_read_delta,ssb_read_delta,job_read_delta,synthetic_write_delta"

abbrev pub given_or : Option Text → Text → Text
given_or none default = default
given_or (some s) default = s

abbrev pub engine_registry : List Text
engine_registry = codes "spark-default" ∷ codes "spark-tuned" ∷ codes "df" ∷ codes "duckdb" ∷ []

-- `available_workloads[w]`
abbrev pub find_workload : Text → Dict String Workload → Option Workload
find_workload w [] = none
find_workload w ((name, wl) ∷ rest) =
    let later = find_workload w rest in if w == codes name then some wl else later

abbrev pub is_missing : Dict String Workload → Text → Bool
is_missing available w = elim (find_workload w available) [ none ↦ true | some _ ↦ false ]

abbrev pub cons_found : Option Workload → List Workload → List Workload
cons_found none wls = wls
cons_found (some wl) wls = wl ∷ wls

abbrev pub find_all : Dict String Workload → List Text → List Workload
find_all available [] = []
find_all available (w ∷ ws) = cons_found (find_workload w available) (find_all available ws)

-- Why `cmd_run` stops, with the names that it prints.
pub data Refusal : Type 0 where
  unknown_workloads : List Text → Refusal
  negative_cold_runs negative_warm_runs : Refusal
  zero_runs : List String → Refusal
  unknown_engines : List Text → Refusal

pub data Checked {ℓ} (A : Type ℓ) : Type ℓ where
  refused : Refusal → Checked A
  accepted : A → Checked A

abbrev pub and_then {ℓ κ} : {A : Type ℓ} {B : Type κ} → Checked A → (A → Checked B) → Checked B
and_then (refused r) f = refused r
and_then (accepted a) f = f a

abbrev pub no_missing : Dict String Workload → List Text → List Text → Checked (List Workload)
no_missing available wanted [] = accepted (find_all available wanted)
no_missing available wanted (w ∷ ws) = refused (unknown_workloads (w ∷ ws))

-- An empty text selects every workload.
abbrev pub select_workloads : Dict String Workload → Text → Checked (List Workload)
select_workloads available [] = accepted (values available)
select_workloads available (c ∷ s) =
    let wanted = names_of (c ∷ s) in
    no_missing available wanted (keep (is_missing available) wanted)

abbrev pub set_cold : ℕ → Workload → Workload
set_cold n wl = record wl { cold_runs = n }

abbrev pub set_warm : ℕ → Workload → Workload
set_warm n wl = record wl { warm_runs = n }

abbrev pub override_cold : Option ℤ → List Workload → Checked (List Workload)
override_cold none wls = accepted wls
override_cold (some (pos n)) wls = accepted (map (set_cold n) wls)
override_cold (some (negsuc n)) wls = refused negative_cold_runs

abbrev pub override_warm : Option ℤ → List Workload → Checked (List Workload)
override_warm none wls = accepted wls
override_warm (some (pos n)) wls = accepted (map (set_warm n) wls)
override_warm (some (negsuc n)) wls = refused negative_warm_runs

abbrev pub no_runs : Workload → Bool
no_runs wl = wl.cold_runs + wl.warm_runs == 0

abbrev pub is_some : Option ℤ → Bool
is_some none = false
is_some (some n) = true

abbrev pub overridden : RunArgs → Bool
overridden args = is_some args.cold_runs || is_some args.warm_runs

abbrev pub none_zero : List Workload → List Workload → Checked (List Workload)
none_zero wls [] = accepted wls
none_zero wls (z ∷ zs) = refused (zero_runs (map (λ wl. wl.name) (z ∷ zs)))

abbrev pub check_zero : Bool → List Workload → Checked (List Workload)
check_zero false wls = accepted wls
check_zero true wls = none_zero wls (keep no_runs wls)

abbrev pub is_unknown : Text → Bool
is_unknown e = not (contains engine_registry e)

abbrev pub none_unknown : List Text → List Text → Checked (List Text)
none_unknown es [] = accepted es
none_unknown es (u ∷ us) = refused (unknown_engines (u ∷ us))

abbrev pub select_engines : Text → Checked (List Text)
select_engines s = none_unknown (names_of s) (keep is_unknown (names_of s))

-- The selection as `cmd_run` makes it without a menu.
unfoldable pub select : Dict String Workload → RunArgs → Checked (List Workload × List Text)
select available args =
    and_then (select_workloads available (given_or args.workloads default_workloads)) (λ wls.
      and_then (override_cold args.cold_runs wls) (λ cold.
        and_then (override_warm args.warm_runs cold) (λ warm.
          and_then (check_zero (overridden args) warm) (λ checked.
            and_then (select_engines (given_or args.engines default_engines))
              (λ es. accepted (checked, es))))))
