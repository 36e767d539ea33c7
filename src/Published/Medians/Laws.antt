-- ===== src/Published/Medians/Laws.antt =====
-- The medians of `load_engine_records` in reports/build_published.py, against the runs of a query.
use mathlib.Core.List.{append-nil, append_assoc}
use delta_forge_benchmarks.Common.{
  suc, ◌+◌, ◌≡◌, refl, sym, ap, ◌∙◌, Bool, true, false, not, ◌&&◌, Option, none, some, List, [],
  ◌∷◌, ◌++◌, count_if, if◌then◌else◌, ◌==◌, list_eq, nat_eq, leb, ==-sound, arith,
}
use delta_forge_benchmarks.Common.Dict.{
  Dict, lookup, lookup_or, insert, lookup_or-insert, lookup_or-cons,
}
use delta_forge_benchmarks.Common.Sort.{sorted}
use delta_forge_benchmarks.Common.Text.{Text}
use delta_forge_benchmarks.Published.Medians.{
  Line, sid_of, starts_q, measured, Loading, start, add_failure, add_line, add_lines, medians_of,
  load_engine_records,
}
use delta_forge_benchmarks.Published.Medians.Counts.{is_query, is_failed, add_lines_counts}
use delta_forge_benchmarks.Stats.Percentile.{Ms, median_sorted, median}

abbrev if_same : Bool → Option Ms → Option Ms
if_same true o = o
if_same false o = none

-- The time of a warm run of the query that did not fail.
abbrev pub warm_time : Text → Line → Option Ms
warm_time q r =
    if_same (starts_q (sid_of r)) (if_same (not r.cold) (if_same (q == sid_of r) (measured r)))

abbrev with_time : Option Ms → List Ms → List Ms
with_time none ms = ms
with_time (some m) ms = m ∷ ms

abbrev pub warm_times : Text → List Line → List Ms
warm_times q [] = []
warm_times q (r ∷ rs) = with_time (warm_time q r) (warm_times q rs)

abbrev tail_of : Option Ms → List Ms
tail_of none = []
tail_of (some m) = m ∷ []

still_none : (a b : Bool) → if_same a (if_same b none) ≡ none
still_none true true = refl
still_none true false = refl
still_none false b = refl

add_line_warm :
    (q : Text) (r : Line) (st : Loading)
    → lookup_or q [] (add_line r st).warm ≡ lookup_or q [] st.warm ++ tail_of (warm_time q r)
unfolding add_line
add_line_warm q r st = by_case (starts_q (sid_of r)) r.cold (measured r)
  where
    w : List Ms
    w = lookup_or q [] st.warm

    by_key :
        (m : Ms) (b : Bool)
        → (q == sid_of r) ≡ b
        → (if b then lookup_or (sid_of r) [] st.warm ++ m ∷ [] else w)
          ≡ w ++ tail_of (if_same b (some m))
    by_key m true e = ap (λ k. lookup_or k [] st.warm ++ m ∷ []) (sym (==-sound q (sid_of r) e))
    by_key m false e = sym (append-nil w)

    insertion :
        (m : Ms)
        → lookup_or q [] (insert (sid_of r) (lookup_or (sid_of r) [] st.warm ++ m ∷ []) st.warm)
          ≡ w ++ tail_of (if_same (q == sid_of r) (some m))
    insertion m =
        lookup_or-insert q (sid_of r) (lookup_or (sid_of r) [] st.warm ++ m ∷ []) [] st.warm
        ∙ by_key m (q == sid_of r) refl

    by_case :
        (b cold : Bool) (o : Option Ms)
        → lookup_or q []
            (if b
              then (elim o [
                | none ↦ add_failure r st
                | some ms ↦
                    if cold
                    then record st { ok = suc st.ok; cold = insert (sid_of r) ms st.cold }
                    else record st {
                      ok = suc st.ok;
                      warm = insert (sid_of r) (lookup_or (sid_of r) [] st.warm ++ ms ∷ []) st.warm;
                    }
              ])
              else st).warm
          ≡ w ++ tail_of (if_same b (if_same (not cold) (if_same (q == sid_of r) o)))
    by_case false cold o = sym (append-nil w)
    by_case true cold none =
        sym (ap (λ o. w ++ tail_of o) (still_none (not cold) (q == sid_of r)) ∙ append-nil w)
    by_case true true (some m) = sym (append-nil w)
    by_case true false (some m) = insertion m

with_tail : (o : Option Ms) (ms : List Ms) → tail_of o ++ ms ≡ with_time o ms
with_tail none ms = refl
with_tail (some m) ms = refl

add_lines_warm :
    (q : Text) (rs : List Line) (st : Loading)
    → lookup_or q [] (add_lines rs st).warm ≡ lookup_or q [] st.warm ++ warm_times q rs
unfolding add_lines
add_lines_warm q [] st = sym (append-nil (lookup_or q [] st.warm))
add_lines_warm q (r ∷ rs) st =
    add_lines_warm q rs (add_line r st)
    ∙ ap (λ w. w ++ warm_times q rs) (add_line_warm q r st)
    ∙ append_assoc (lookup_or q [] st.warm) (tail_of (warm_time q r)) (warm_times q rs)
    ∙ ap (λ t. lookup_or q [] st.warm ++ t) (with_tail (warm_time q r) (warm_times q rs))

-- No query has an empty list of times.
abbrev has_any : List Ms → Bool
has_any [] = false
has_any (m ∷ ms) = true

abbrev no_empty : Dict Text (List Ms) → Bool
no_empty [] = true
no_empty ((q, ms) ∷ d) = has_any ms && no_empty d

has_any_more : (ms : List Ms) (m : Ms) → has_any (ms ++ m ∷ []) ≡ true
has_any_more [] m = refl
has_any_more (x ∷ ms) m = refl

no_empty-insert :
    (k : Text) (v : List Ms) (d : Dict Text (List Ms))
    → has_any v ≡ true
    → no_empty d ≡ true
    → no_empty (insert k v d) ≡ true
no_empty-insert k v [] h u = ground arith
no_empty-insert k v ((j, w) ∷ d) h u = ground (arith, no_empty-insert k v d)

add_line-no_empty :
    (r : Line) (st : Loading) → no_empty st.warm ≡ true → no_empty (add_line r st).warm ≡ true
unfolding add_line
add_line-no_empty r st u = by_case (starts_q (sid_of r)) r.cold (measured r)
  where
    by_case :
        (b cold : Bool) (o : Option Ms)
        → no_empty
            (if b
              then (elim o [
                | none ↦ add_failure r st
                | some ms ↦
                    if cold
                    then record st { ok = suc st.ok; cold = insert (sid_of r) ms st.cold }
                    else record st {
                      ok = suc st.ok;
                      warm = insert (sid_of r) (lookup_or (sid_of r) [] st.warm ++ ms ∷ []) st.warm;
                    }
              ])
              else st).warm
          ≡ true
    by_case false cold o = u
    by_case true cold none = u
    by_case true true (some m) = u
    by_case true false (some m) =
        no_empty-insert (sid_of r) (lookup_or (sid_of r) [] st.warm ++ m ∷ []) st.warm
          (has_any_more (lookup_or (sid_of r) [] st.warm) m) u

add_lines-no_empty :
    (rs : List Line) (st : Loading)
    → no_empty st.warm ≡ true
    → no_empty (add_lines rs st).warm ≡ true
unfolding add_lines
add_lines-no_empty [] st u = u
add_lines-no_empty (r ∷ rs) st u = add_lines-no_empty rs (add_line r st) (add_line-no_empty r st u)

lookup-medians_of :
    (q : Text) (d : Dict Text (List Ms))
    → no_empty d ≡ true
    → lookup q (medians_of d) ≡ median (lookup_or q [] d)
unfolding medians_of median
lookup-medians_of q [] u = refl
lookup-medians_of q ((j, []) ∷ d) u = cc
lookup-medians_of q ((j, m ∷ ms) ∷ d) u =
    by_test (lookup-medians_of q d u) (q == j) ∙ ap median (sym (lookup_or-cons q j (m ∷ ms) [] d))
  where
    by_test :
        lookup q (medians_of d) ≡ median (lookup_or q [] d)
        → (b : Bool)
        → (if b then some (median_sorted (sorted leb (m ∷ ms))) else lookup q (medians_of d))
          ≡ median (if b then m ∷ ms else lookup_or q [] d)
    by_test later true = refl
    by_test later false = later

-- The published median of a query is that of the times of exactly its warm runs without an error, the
-- engine's time where there is one, and it has none if there is no such run; the failures are the runs
-- of queries with an error or without a time, and with the successes they are all runs of queries.
pub lookup-load_engine_records :
    (q : Text) (lines : List Line)
    → let (medians, s) = load_engine_records lines in
      (lookup q medians ≡ median (warm_times q lines))
      × (s.fail ≡ count_if is_failed lines)
      × (s.ok + s.fail ≡ count_if is_query lines)
unfolding load_engine_records
lookup-load_engine_records q lines =
    let st = add_lines lines start in
    let (f, t) = add_lines_counts lines start in
    (
      lookup-medians_of q st.warm (add_lines-no_empty lines start refl)
          ∙ ap median (add_lines_warm q lines start),
      omega (arith, f),
      omega (arith, t),
    )
