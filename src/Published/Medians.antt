-- ===== src/Published/Medians.antt =====
-- `load_engine_records` of reports/build_published.py. Timings are in microseconds, medians in hundredths
-- of them.
pub mod Counts
pub mod Keys
pub mod Laws
use delta_forge_benchmarks.Common.{
  ℕ, suc, Bool, true, false, Option, none, some, List, [], ◌∷◌, ◌++◌, take, length, if◌then◌else◌,
  ◌==◌, nat_eq, list_eq, leb,
}
use delta_forge_benchmarks.Common.Dict.{Dict, lookup_or, insert}
use delta_forge_benchmarks.Common.Lines.{splitlines}
use delta_forge_benchmarks.Common.Text.{Text, codes}
use delta_forge_benchmarks.Stats.Percentile.{Ms, median_sorted, median}
use delta_forge_benchmarks.Common.Sort.{sorted}

-- A decoded line, by the keys that are looked at.
pub record Line : Type 0 where
  pub step_id : Option Text
  pub wall_ms : Option Ms
  pub engine_reported_ms : Option Ms
  pub error : Option Text
  pub cold : Bool

-- `r.get("step_id") or ""`
abbrev pub sid_of : Line → Text
sid_of r = elim r.step_id [ none ↦ [] | some s ↦ s ]

abbrev pub starts_q : Text → Bool
starts_q [] = false
starts_q (c ∷ s) = c == b'q'

-- The engine's time, or else the wall clock; none for a failed run.
abbrev first_known : Option Ms → Option Ms → Option Ms
first_known none wall = wall
first_known (some eng) wall = some eng

abbrev unless_error : Option Text → Option Ms → Option Ms
unless_error none ms = ms
unless_error (some e) ms = none

unfoldable pub measured : Line → Option Ms
measured r = unless_error r.error (first_known r.engine_reported_ms r.wall_ms)

abbrev head_line : List Text → Text
head_line [] = []
head_line (l ∷ ls) = l

abbrev pub or_unknown : Option Text → Text
or_unknown none = codes "unknown"
or_unknown (some []) = codes "unknown"
or_unknown (some (c ∷ s)) = c ∷ s

-- `(r.get("error") or "unknown").splitlines()[0][:140]`
unfoldable pub error_head : Line → Text
unfolding splitlines
error_head r = take 140 (head_line (splitlines (or_unknown r.error)))

-- The variables of the loop.
pub record Loading : Type 0 where
  pub warm : Dict Text (List Ms)
  pub cold : Dict Text Ms
  pub ok : ℕ
  pub fail : ℕ
  pub first_error : Option Text

abbrev pub start : Loading
start = record { warm = []; cold = []; ok = 0; fail = 0; first_error = none }

abbrev pub or_first : Option Text → Text → Option Text
or_first none e = some e
or_first (some old) e = some old

abbrev pub add_failure : Line → Loading → Loading
add_failure r st = record st {
  fail = suc st.fail;
  first_error = or_first st.first_error (error_head r);
}

abbrev pub add_success : Line → Ms → Loading → Loading
add_success r ms st =
    if r.cold
    then record st { ok = suc st.ok; cold = insert (sid_of r) ms st.cold }
    else record st {
      ok = suc st.ok;
      warm = insert (sid_of r) (lookup_or (sid_of r) [] st.warm ++ ms ∷ []) st.warm;
    }

abbrev pub add_query : Line → Loading → Loading
add_query r st = elim (measured r) [ none ↦ add_failure r st | some ms ↦ add_success r ms st ]

unfoldable pub add_line : Line → Loading → Loading
unfolding measured error_head
add_line r st = if starts_q (sid_of r) then add_query r st else st

unfoldable pub add_lines : List Line → Loading → Loading
unfolding add_line
add_lines [] st = st
add_lines (r ∷ rs) st = add_lines rs (add_line r st)

pub record EngineSummary : Type 0 where
  pub ok : ℕ
  pub fail : ℕ
  pub first_error : Option Text
  pub n_queries : ℕ

-- `{q: statistics.median(v) for q, v in warm.items()}`
unfoldable pub medians_of : Dict Text (List Ms) → Dict Text ℕ
unfolding median_sorted
medians_of [] = []
medians_of ((q, v) ∷ warm) = (q, median_sorted (sorted leb v)) ∷ medians_of warm

unfoldable pub load_engine_records : List Line → Dict Text ℕ × EngineSummary
unfolding add_lines medians_of
load_engine_records lines =
    let st = add_lines lines start in
    (
      medians_of st.warm,
      record {
        ok = st.ok;
        fail = st.fail;
        first_error = st.first_error;
        n_queries = length st.warm;
      },
    )
