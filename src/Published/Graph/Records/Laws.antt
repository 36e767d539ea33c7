-- ===== src/Published/Graph/Records/Laws.antt =====
-- What `load_df_records` of reports/build_graph_gpu_report.py collects of the runs of a step.
use mathlib.Core.List.{append-nil, append_assoc}
use delta_forge_benchmarks.Common.{
  ℕ, ◌≡◌, refl, sym, ap, ◌∙◌, Bool, true, false, ◌&&◌, ◌||◌, Option, none, some, List, [], ◌∷◌,
  ◌++◌, any, contains, if◌then◌else◌, ◌==◌, Eq, list_eq, nat_eq, pair_eq, leb, ==-sound, arith,
}
use delta_forge_benchmarks.Common.Dict.{
  Dict, lookup, lookup_or, insert, lookup_or-insert, lookup_or-cons,
}
use delta_forge_benchmarks.Common.Sort.{sorted}
use delta_forge_benchmarks.Published.Graph.Records.{
  Line, Loading, start, device_eq, append_to, add_size, key_of, measured, add_run, add_keyed,
  add_line, add_lines, medians_of, load_df_records,
}
use delta_forge_benchmarks.Published.Graph.StepId.{StepKey}
use delta_forge_benchmarks.Stats.Percentile.{Ms, median_sorted, median}

or_true : (a : Bool) → (a || true) ≡ true
or_true a = ground arith

or_none : (a : Bool) → (a || false) ≡ a
or_none a = ground arith

swap : (a b : Bool) → (a || b) ≡ (b || a)
swap a b = ground arith

or_assoc : (a b c : Bool) → ((a || b) || c) ≡ (a || (b || c))
or_assoc a b c = ground arith

abbrev has_any : List Ms → Bool
has_any [] = false
has_any (m ∷ ms) = true

has_any_more : (ms : List Ms) (m : Ms) → has_any (ms ++ m ∷ []) ≡ true
has_any_more [] m = refl
has_any_more (x ∷ ms) m = refl

module _ {K : Type 0} ⦃e : Eq K⦄ where
  lookup_or-append_to :
      (j k : K) (v : Ms) (d : Dict K (List Ms))
      → lookup_or j [] (append_to k v d) ≡ lookup_or j [] d ++ (if j == k then v ∷ [] else [])
  lookup_or-append_to j k v d =
      lookup_or-insert j k (lookup_or k [] d ++ v ∷ []) [] d ∙ by_key (j == k) refl
    where
      by_key :
          (b : Bool)
          → (j == k) ≡ b
          → (if b then lookup_or k [] d ++ v ∷ [] else lookup_or j [] d)
            ≡ lookup_or j [] d ++ (if b then v ∷ [] else [])
      by_key true h = ap (λ i. lookup_or i [] d ++ v ∷ []) (sym (==-sound j k h))
      by_key false h = sym (append-nil (lookup_or j [] d))

  -- No key has an empty list.
  abbrev no_empty : Dict K (List Ms) → Bool
  no_empty [] = true
  no_empty ((k, ms) ∷ d) = has_any ms && no_empty d

  no_empty-insert :
      (k : K) (v : List Ms) (d : Dict K (List Ms))
      → has_any v ≡ true
      → no_empty d ≡ true
      → no_empty (insert k v d) ≡ true
  no_empty-insert k v [] h u = ground arith
  no_empty-insert k v ((j, w) ∷ d) h u = ground (arith, no_empty-insert k v d)

  lookup-medians_of :
      (k : K) (d : Dict K (List Ms))
      → no_empty d ≡ true
      → lookup k (medians_of d) ≡ median (lookup_or k [] d)
  unfolding medians_of median
  lookup-medians_of k [] h = refl
  lookup-medians_of k ((j, []) ∷ d) h = cc
  lookup-medians_of k ((j, v ∷ vs) ∷ d) h =
      by_key (k == j) (lookup-medians_of k d h) ∙ sym (ap median (lookup_or-cons k j (v ∷ vs) [] d))
    where
      by_key :
          (b : Bool)
          → lookup k (medians_of d) ≡ median (lookup_or k [] d)
          → (if b then some (median_sorted (sorted leb (v ∷ vs))) else lookup k (medians_of d))
            ≡ median (if b then v ∷ vs else lookup_or k [] d)
      by_key true later = refl
      by_key false later = later

abbrev warm_of : StepKey → Bool → Option StepKey → Option Ms → List Ms
warm_of key cold none o = []
warm_of key cold (some k) none = []
warm_of key cold (some k) (some ms) = if cold then [] else (if key == k then ms ∷ [] else [])

-- The times of the warm runs of a step that did not fail, in the order of the lines.
abbrev pub warm_times : StepKey → List Line → List Ms
warm_times key [] = []
warm_times key (r ∷ rs) = warm_of key r.cold (key_of r) (measured r) ++ warm_times key rs

abbrev size_of : ℕ → Option StepKey → Option Ms → Bool
size_of m none o = false
size_of m (some k) none = false
size_of m (some k) (some ms) = m == k.1.0

-- A run on a graph of this size that did not fail.
abbrev pub is_run_at : ℕ → Line → Bool
is_run_at m r = size_of m (key_of r) (measured r)

add_run_warm :
    (r : Line) (k : StepKey) (ms : Ms) (st : Loading)
    → (add_run r k ms st).warm_runs ≡ (if r.cold then st.warm_runs else append_to k ms st.warm_runs)
add_run_warm r k ms st = ground arith

add_line_warm :
    (key : StepKey) (r : Line) (st : Loading)
    → lookup_or key [] (add_line r st).warm_runs
      ≡ lookup_or key [] st.warm_runs ++ warm_of key r.cold (key_of r) (measured r)
unfolding add_line
add_line_warm key r st = by_key (key_of r) (measured r)
  where
    w : List Ms
    w = lookup_or key [] st.warm_runs

    by_test :
        (k : StepKey) (ms : Ms) (cold : Bool)
        → lookup_or key [] (if cold then st.warm_runs else append_to k ms st.warm_runs)
          ≡ w ++ (if cold then [] else (if key == k then ms ∷ [] else []))
    by_test k ms true = sym (append-nil w)
    by_test k ms false = lookup_or-append_to key k ms st.warm_runs

    by_key :
        (o : Option StepKey) (p : Option Ms)
        → lookup_or key [] (add_keyed r o p st).warm_runs ≡ w ++ warm_of key r.cold o p
    by_key none p = sym (append-nil w)
    by_key (some k) none = sym (append-nil w)
    by_key (some k) (some ms) = ap (lookup_or key []) (add_run_warm r k ms st) ∙ by_test k ms r.cold

add_lines_warm :
    (key : StepKey) (rs : List Line) (st : Loading)
    → lookup_or key [] (add_lines rs st).warm_runs
      ≡ lookup_or key [] st.warm_runs ++ warm_times key rs
unfolding add_lines
add_lines_warm key [] st = sym (append-nil (lookup_or key [] st.warm_runs))
add_lines_warm key (r ∷ rs) st =
    add_lines_warm key rs (add_line r st)
    ∙ ap (λ w. w ++ warm_times key rs) (add_line_warm key r st)
    ∙ append_assoc (lookup_or key [] st.warm_runs) (warm_of key r.cold (key_of r) (measured r))
        (warm_times key rs)

add_line-no_empty :
    (r : Line) (st : Loading)
    → no_empty st.warm_runs ≡ true
    → no_empty (add_line r st).warm_runs ≡ true
unfolding add_line
add_line-no_empty r st h = by_key (key_of r) (measured r)
  where
    by_test :
        (k : StepKey) (ms : Ms) (cold : Bool)
        → no_empty (if cold then st.warm_runs else append_to k ms st.warm_runs) ≡ true
    by_test k ms true = h
    by_test k ms false =
        no_empty-insert k (lookup_or k [] st.warm_runs ++ ms ∷ []) st.warm_runs
          (has_any_more (lookup_or k [] st.warm_runs) ms) h

    by_key : (o : Option StepKey) (p : Option Ms) → no_empty (add_keyed r o p st).warm_runs ≡ true
    by_key none p = h
    by_key (some k) none = h
    by_key (some k) (some ms) = ap no_empty (add_run_warm r k ms st) ∙ by_test k ms r.cold

add_lines-no_empty :
    (rs : List Line) (st : Loading)
    → no_empty st.warm_runs ≡ true
    → no_empty (add_lines rs st).warm_runs ≡ true
unfolding add_lines
add_lines-no_empty [] st h = h
add_lines-no_empty (r ∷ rs) st h = add_lines-no_empty rs (add_line r st) (add_line-no_empty r st h)

contains-add_size : (m n : ℕ) (s : List ℕ) → contains (add_size n s) m ≡ (contains s m || m == n)
contains-add_size m n s = by_test (contains s n) refl
  where
    known : (b : Bool) → (m == n) ≡ b → contains s n ≡ true → contains s m ≡ (contains s m || b)
    known true same h = ap (contains s) (==-sound m n same) ∙ h ∙ sym (or_true (contains s m))
    known false same h = sym (or_none (contains s m))

    by_test :
        (b : Bool)
        → contains s n ≡ b
        → contains (if b then s else n ∷ s) m ≡ (contains s m || m == n)
    by_test true h = known (m == n) refl h
    by_test false h = swap (m == n) (contains s m)

add_line_size :
    (m : ℕ) (r : Line) (st : Loading)
    → contains (add_line r st).sizes m ≡ (contains st.sizes m || is_run_at m r)
unfolding add_line
add_line_size m r st = by_key (key_of r) (measured r)
  where
    sizes_of : (k : StepKey) (ms : Ms) → (add_run r k ms st).sizes ≡ add_size k.1.0 st.sizes
    sizes_of k ms = ground arith

    by_key :
        (o : Option StepKey) (p : Option Ms)
        → contains (add_keyed r o p st).sizes m ≡ (contains st.sizes m || size_of m o p)
    by_key none p = sym (or_none (contains st.sizes m))
    by_key (some k) none = sym (or_none (contains st.sizes m))
    by_key (some k) (some ms) =
        ap (λ s. contains s m) (sizes_of k ms) ∙ contains-add_size m k.1.0 st.sizes

add_lines_size :
    (m : ℕ) (rs : List Line) (st : Loading)
    → contains (add_lines rs st).sizes m ≡ (contains st.sizes m || any (is_run_at m) rs)
unfolding add_lines
add_lines_size m [] st = sym (or_none (contains st.sizes m))
add_lines_size m (r ∷ rs) st =
    add_lines_size m rs (add_line r st)
    ∙ ap (λ b. b || any (is_run_at m) rs) (add_line_size m r st)
    ∙ or_assoc (contains st.sizes m) (is_run_at m r) (any (is_run_at m) rs)

-- The warm time of a step in the graph report is the median of the times of exactly its warm runs
-- without an error, the engine's time where there is one, and it has none if there is no such run; the
-- sizes of the report are exactly those on which some run, warm or cold, did not fail.
pub lookup-load_df_records :
    (key : StepKey) (m : ℕ) (lines : List Line)
    → let records = load_df_records lines in
      (lookup key records.warm ≡ median (warm_times key lines))
      × (contains records.sizes m ≡ any (is_run_at m) lines)
unfolding load_df_records
lookup-load_df_records key m lines = (
  lookup-medians_of key (add_lines lines start).warm_runs (add_lines-no_empty lines start refl)
      ∙ ap median (add_lines_warm key lines start),
  add_lines_size m lines start,
)
