-- ===== src/Published/Medians/Counts.antt =====
-- How many runs of queries `load_engine_records` in reports/build_published.py counts.
use delta_forge_benchmarks.Common.{
  suc, ◌+◌, ◌≡◌, Bool, true, false, ◌&&◌, Option, none, some, List, [], ◌∷◌, ◌++◌, count_if,
  if◌then◌else◌, list_eq, nat_eq, arith,
}
use delta_forge_benchmarks.Common.Dict.{lookup_or, insert}
use delta_forge_benchmarks.Published.Medians.{
  Line, sid_of, starts_q, measured, Loading, add_failure, add_line, add_lines,
}
use delta_forge_benchmarks.Stats.Percentile.{Ms}

abbrev is_none {ℓ} : {A : Type ℓ} → Option A → Bool
is_none none = true
is_none (some a) = false

abbrev pub is_query : Line → Bool
is_query r = starts_q (sid_of r)

-- A run of a query with an error, or without any time.
abbrev pub is_failed : Line → Bool
is_failed r = is_query r && is_none (measured r)

add_line_counts :
    (r : Line) (st : Loading)
    → ((add_line r st).fail ≡ st.fail + (if is_failed r then 1 else 0))
      × ((add_line r st).ok + (add_line r st).fail
          ≡ st.ok + st.fail + (if is_query r then 1 else 0))
unfolding add_line
add_line_counts r st = by_case (starts_q (sid_of r)) r.cold (measured r)
  where
    by_case :
        (b cold : Bool) (o : Option Ms)
        → let after : Loading =
            if b
            then (elim o [
              | none ↦ add_failure r st
              | some ms ↦
                  if cold
                  then record st { ok = suc st.ok; cold = insert (sid_of r) ms st.cold }
                  else record st {
                    ok = suc st.ok;
                    warm = insert (sid_of r) (lookup_or (sid_of r) [] st.warm ++ ms ∷ []) st.warm;
                  }
            ])
            else st in
          (after.fail ≡ st.fail + (if b && is_none o then 1 else 0))
          × (after.ok + after.fail ≡ st.ok + st.fail + (if b then 1 else 0))
    by_case false cold o = (omega arith, omega arith)
    by_case true cold none = (omega arith, omega arith)
    by_case true true (some m) = (omega arith, omega arith)
    by_case true false (some m) = (omega arith, omega arith)

count_if-cons :
    (p : Line → Bool) (r : Line) (rs : List Line)
    → count_if p (r ∷ rs) ≡ (if p r then 1 else 0) + count_if p rs
count_if-cons p r rs = ground arith

pub add_lines_counts :
    (rs : List Line) (st : Loading)
    → let after = add_lines rs st in
      (after.fail ≡ st.fail + count_if is_failed rs)
      × (after.ok + after.fail ≡ st.ok + st.fail + count_if is_query rs)
unfolding add_lines
add_lines_counts [] st = (omega arith, omega arith)
add_lines_counts (r ∷ rs) st =
    let (f, t) = add_line_counts r st in
    let (g, u) = add_lines_counts rs (add_line r st) in
    (
      omega (arith, f, g, count_if-cons is_failed r rs),
      omega (arith, t, u, count_if-cons is_query r rs),
    )
