-- ===== src/Published/Medians/Keys.antt =====
-- `load_engine_records` of reports/build_published.py files one list of times for each query.
use delta_forge_benchmarks.Common.{
  ◌≡◌, refl, Bool, true, false, Option, none, some, List, [], ◌∷◌, ◌++◌, if◌then◌else◌, nat_eq,
  list_eq, arith,
}
use delta_forge_benchmarks.Common.Dict.{Dict, lookup, lookup_or, NodupKeys, insert-NodupKeys}
use delta_forge_benchmarks.Common.Text.{Text}
use delta_forge_benchmarks.Published.Medians.{
  Line, sid_of, starts_q, measured, add_failure, add_success, Loading, start, add_line, add_lines,
  medians_of, load_engine_records,
}
use delta_forge_benchmarks.Stats.Percentile.{Ms}

add_line-NodupKeys : (r : Line) (st : Loading) → NodupKeys st.warm → NodupKeys (add_line r st).warm
unfolding add_line
add_line-NodupKeys r st u = by_case (starts_q (sid_of r)) (measured r)
  where
    filed : (ms : Ms) (cold : Bool) → NodupKeys (add_success (record r { cold = cold }) ms st).warm
    filed ms true = u
    filed ms false =
        insert-NodupKeys (sid_of r) (lookup_or (sid_of r) [] st.warm ++ ms ∷ []) st.warm u

    by_case :
        (b : Bool) (o : Option Ms)
        → NodupKeys
            (if b
              then (elim o [ none ↦ add_failure r st | some ms ↦ add_success r ms st ])
              else st).warm
    by_case true none = u
    by_case true (some ms) = filed ms r.cold
    by_case false o = u

add_lines-NodupKeys :
    (rs : List Line) (st : Loading) → NodupKeys st.warm → NodupKeys (add_lines rs st).warm
unfolding add_lines
add_lines-NodupKeys [] st u = u
add_lines-NodupKeys (r ∷ rs) st u =
    add_lines-NodupKeys rs (add_line r st) (add_line-NodupKeys r st u)

absent-medians_of :
    (q : Text) (d : Dict Text (List Ms)) → lookup q d ≡ none → lookup q (medians_of d) ≡ none
unfolding medians_of
absent-medians_of q [] h = refl
absent-medians_of q ((j, ms) ∷ d) h = ground (arith, absent-medians_of q d)

medians_of-NodupKeys : (d : Dict Text (List Ms)) → NodupKeys d → NodupKeys (medians_of d)
unfolding medians_of
medians_of-NodupKeys [] u = tt
medians_of-NodupKeys ((j, ms) ∷ d) (fresh, u) =
    (absent-medians_of j d fresh, medians_of-NodupKeys d u)

pub load_engine_records-NodupKeys : (lines : List Line) → NodupKeys (load_engine_records lines).0
unfolding load_engine_records
load_engine_records-NodupKeys lines =
    medians_of-NodupKeys (add_lines lines start).warm (add_lines-NodupKeys lines start tt)
