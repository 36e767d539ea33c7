-- ===== src/Curve/Timings.antt =====
-- `load_query_timings` of scale_out/aggregate.py. The lines of a stream's file are the records that the
-- runner writes, decoded.
use delta_forge_benchmarks.Common.{
  ◌≡◌, refl, sym, ap, ◌∙◌, Bool, true, false, not, ◌&&◌, Option, none, some, List, [], ◌∷◌, String,
  if◌then◌else◌, ◌==◌, nat_eq, string_eq, Bool-cases, inl, inr, ==-sound,
}
use delta_forge_benchmarks.Common.Dict.{Dict, lookup, insert, lookup-insert}
use delta_forge_benchmarks.Steps.{StepKind, sql_query}
use delta_forge_benchmarks.Stats.Percentile.{Ms}
use delta_forge_benchmarks.Runner.Run.{StepRecord}

abbrev pub is_query : StepKind → Bool
is_query sql_query = true
is_query k = false

-- A record that the loop does not skip.
abbrev pub counts : StepRecord → Bool
counts r = is_query r.step_kind && r.exit_code == 0

-- `qid in timings`
abbrev pub is_timed : Option Ms → Bool
is_timed none = false
is_timed (some m) = true

unfoldable pub add_timing : Dict String Ms → StepRecord → Dict String Ms
add_timing timings r =
    let timed = insert r.step_id r.wall_ms timings in
    if counts r
    then (if is_timed (lookup r.step_id timings)
        then (if not r.cold then timed else timings)
        else timed)
    else timings

unfoldable pub add_timings : Dict String Ms → List StepRecord → Dict String Ms
unfolding add_timing
add_timings timings [] = timings
add_timings timings (r ∷ rs) = add_timings (add_timing timings r) rs

unfoldable pub load_query_timings : List StepRecord → Dict String Ms
unfolding add_timings
load_query_timings records = add_timings [] records

-- The successful runs of a query, and the warm ones of them.
abbrev pub is_run_of : String → StepRecord → Bool
is_run_of q r = q == r.step_id && counts r

abbrev pub first_run : String → List StepRecord → Option Ms
first_run q [] = none
first_run q (r ∷ rs) = let rest = first_run q rs in if is_run_of q r then some r.wall_ms else rest

abbrev pub or_else : Option Ms → Option Ms → Option Ms
or_else none o = o
or_else (some m) o = some m

abbrev pub last_warm_run : String → List StepRecord → Option Ms
last_warm_run q [] = none
last_warm_run q (r ∷ rs) =
    or_else (last_warm_run q rs) (if is_run_of q r && not r.cold then some r.wall_ms else none)

lookup_branches :
    (q : String) (c b w : Bool) (t u : Dict String Ms)
    → lookup q (if c then (if b then (if w then u else t) else u) else t) ≡ (
        if c
        then (if b then (if w then lookup q u else lookup q t) else lookup q u)
        else lookup q t)
lookup_branches q true true true t u = refl
lookup_branches q true true false t u = refl
lookup_branches q true false w t u = refl
lookup_branches q false b w t u = refl

timed_now :
    (c w : Bool) (m : Ms) (x : Option Ms)
    → (if c then (if is_timed x then (if w then some m else x) else some m) else x)
      ≡ or_else (if c && w then some m else none) (or_else x (if c then some m else none))
timed_now true true m none = refl
timed_now true true m (some k) = refl
timed_now true false m none = refl
timed_now true false m (some k) = refl
timed_now false w m none = refl
timed_now false w m (some k) = refl

not_timed_now :
    (c b w : Bool) (x : Option Ms)
    → (if c then (if b then (if w then x else x) else x) else x) ≡ or_else x none
not_timed_now true true true none = refl
not_timed_now true true true (some k) = refl
not_timed_now true true false none = refl
not_timed_now true true false (some k) = refl
not_timed_now true false w none = refl
not_timed_now true false w (some k) = refl
not_timed_now false b w none = refl
not_timed_now false b w (some k) = refl

lookup-add_timing :
    (q : String) (timings : Dict String Ms) (r : StepRecord)
    → lookup q (add_timing timings r)
      ≡ or_else
          (if is_run_of q r && not r.cold then some r.wall_ms else none)
          (or_else (lookup q timings) (if is_run_of q r then some r.wall_ms else none))
unfolding add_timing
lookup-add_timing q timings r =
    lookup_branches q (counts r) (is_timed (lookup r.step_id timings)) (not r.cold) timings
      (insert r.step_id r.wall_ms timings)
    ∙ elim (Bool-cases (q == r.step_id)) [
      | inl same ↦
          rw (lookup-insert q r.step_id r.wall_ms timings, same, ==-sound q r.step_id same)
            (timed_now (counts r) (not r.cold) r.wall_ms (lookup r.step_id timings))
      | inr other ↦
          rw (lookup-insert q r.step_id r.wall_ms timings, other)
            (not_timed_now (counts r) (is_timed (lookup r.step_id timings)) (not r.cold)
              (lookup q timings))
    ]

or_else_assoc : (o p q : Option Ms) → or_else (or_else o p) q ≡ or_else o (or_else p q)
or_else_assoc none p q = refl
or_else_assoc (some m) p q = refl

or_else_if :
    (b : Bool) (m : Ms) (o : Option Ms)
    → or_else (if b then some m else none) o ≡ (if b then some m else o)
or_else_if true m o = refl
or_else_if false m o = refl

lookup-add_timings :
    (q : String) (rs : List StepRecord) (timings : Dict String Ms)
    → lookup q (add_timings timings rs)
      ≡ or_else (last_warm_run q rs) (or_else (lookup q timings) (first_run q rs))
unfolding add_timings
lookup-add_timings q [] timings = sym (or_else_none (lookup q timings))
  where
    or_else_none : (o : Option Ms) → or_else o none ≡ o
    or_else_none none = refl
    or_else_none (some m) = refl
lookup-add_timings q (r ∷ rs) timings =
    lookup-add_timings q rs (add_timing timings r)
    ∙ ap (λ o. or_else (last_warm_run q rs) (or_else o (first_run q rs)))
        (lookup-add_timing q timings r)
    ∙ ap (or_else (last_warm_run q rs)) (
        or_else_assoc warm (or_else (lookup q timings) once) (first_run q rs)
        ∙ ap (or_else warm) (
            or_else_assoc (lookup q timings) once (first_run q rs)
            ∙ ap (or_else (lookup q timings))
                (or_else_if (is_run_of q r) r.wall_ms (first_run q rs))))
    ∙ sym (or_else_assoc (last_warm_run q rs) warm _)
  where
    warm : Option Ms
    warm = if is_run_of q r && not r.cold then some r.wall_ms else none

    once : Option Ms
    once = if is_run_of q r then some r.wall_ms else none

-- The timing of a query is that of its last successful warm run, and with no such run that of its first
-- successful run; a query without a successful run has none.
pub lookup-load_query_timings :
    (q : String) (records : List StepRecord)
    → lookup q (load_query_timings records)
      ≡ or_else (last_warm_run q records) (first_run q records)
unfolding load_query_timings
lookup-load_query_timings q records = lookup-add_timings q records []
