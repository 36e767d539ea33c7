-- ===== src/Runner/Resolve.antt =====
-- `resolve_step` of bench_runner.py: the variant of a step for an engine, and the placeholders in its
-- text. A path is its text, with no separator at its end.
pub mod Laws
use delta_forge_benchmarks.Common.{
  ℕ, zero, suc, ◌+◌, Bool, true, false, Option, none, some, List, [], ◌∷◌, ◌++◌, map, String,
  if◌then◌else◌, ◌==◌, nat_eq, string_eq, length, contains,
}
use delta_forge_benchmarks.Common.Text.{Text, codes, show, strip_prefix}
use delta_forge_benchmarks.Common.Dict.{Dict, lookup}
use delta_forge_benchmarks.Steps.{StepKind, WorkloadStep}

pub data Placeholder : Type 0 where
  data_dir data_basename scale : Placeholder

abbrev pub name : Placeholder → Text
name data_dir = codes "data_dir"
name data_basename = codes "data_basename"
name scale = codes "scale"

abbrev pub brace : ℕ
brace = b'{'

-- `name}` at the start of a text
abbrev closed : Placeholder → Text
closed p = name p ++ (b'}' ∷ [])

abbrev first_match : List Placeholder → Text → Option Placeholder
first_match [] s = none
first_match (p ∷ ps) s = elim (strip_prefix (closed p) s) [
  | none ↦ first_match ps s
  | some _ ↦ some p
]

-- What `_PLACEHOLDER_RE` matches after an opening brace.
unfoldable pub placeholder_at : Text → Option Placeholder
placeholder_at = first_match (data_dir ∷ data_basename ∷ scale ∷ [])

module _ (value : Placeholder → Text) where
  -- `_PLACEHOLDER_RE.sub`; the number counts the characters of a match that are still to be passed
  -- over.
  unfoldable pub substitute_from : ℕ → Text → Text
  substitute_from n [] = []
  substitute_from (suc n) (c ∷ s) = substitute_from n s
  substitute_from zero (c ∷ s) =
      let literal = c ∷ substitute_from zero s in
      if c == brace
      then elim (placeholder_at s) [
        | none ↦ literal
        | some p ↦ value p ++ substitute_from (length (closed p)) s
      ]
      else literal

  unfoldable pub substitute : Text → Text
  unfolding substitute_from
  substitute = substitute_from zero

-- `str(data_dir).replace("\\", "/")`
unfoldable pub forward_slashes : Text → Text
forward_slashes = map (λ c. if c == 92 then 47 else c)

-- `Path(data_dir).name`: what follows the last separator
unfoldable pub basename : Text → Text
basename [] = []
basename (c ∷ s) =
    let rest = basename s in if contains s 47 then rest else if c == 47 then s else c ∷ s

unfoldable pub placeholder_value : Text → ℕ → Placeholder → Text
unfolding forward_slashes basename show
placeholder_value dir sf data_dir = forward_slashes dir
placeholder_value dir sf data_basename = basename dir
placeholder_value dir sf scale = show sf

-- `d[engine_name]` if the workload provided it
abbrev pub variant {ℓ} : {A : Type ℓ} → Option (Dict String A) → String → Option A
variant none engine = none
variant (some d) engine = lookup engine d

abbrev pub or_default {ℓ} : {A : Type ℓ} → Option A → A → A
or_default none d = d
or_default (some a) d = a

abbrev pub chosen_sql : WorkloadStep → String → Option Text
chosen_sql step engine = elim (variant step.per_engine_sql engine) [
  | none ↦ step.sql
  | some t ↦ some t
]

unfoldable pub resolve_step : WorkloadStep → Text → String → ℕ → WorkloadStep
unfolding substitute placeholder_value
resolve_step step dir engine sf =
    let kind = or_default (variant step.per_engine_kind engine) step.kind in
    elim (chosen_sql step engine) [
      | none ↦ record step { kind = kind }
      | some sql ↦ record step {
        kind = kind;
        sql = some (substitute (placeholder_value dir sf) sql);
      }
    ]
