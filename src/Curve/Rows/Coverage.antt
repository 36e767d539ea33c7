-- ===== src/Curve/Rows/Coverage.antt =====
-- The places of the rows of the curve, and tests on all of them.
use delta_forge_benchmarks.Common.{
  ℕ, ◌≡◌, refl, ap, ap₂, ◌∙◌, Bool, true, List, [], ◌∷◌, ◌++◌, String, map, leb, nat_eq, string_eq,
  pair_eq, all, &&-split, &&-join,
}
use delta_forge_benchmarks.Common.Dict.{Dict, keys, lookup_or}
use delta_forge_benchmarks.Common.Sort.{sorted}
use delta_forge_benchmarks.Curve.Rows.{
  Samples, Row, baselines, row, rows_of_query, rows_of, name_le, aggregate,
}

-- `[(qid, n) for qid in qids for n in ns]`
abbrev pub pairs_with : String → List ℕ → List (String × ℕ)
pairs_with qid [] = []
pairs_with qid (n ∷ ns) = (qid, n) ∷ pairs_with qid ns

abbrev pub pairs : List String → List ℕ → List (String × ℕ)
pairs [] ns = []
pairs (qid ∷ qids) ns = pairs_with qid ns ++ pairs qids ns

abbrev pub place : Row → String × ℕ
place r = (r.query_id, r.n)

map-append : (f : Row → String × ℕ) (xs ys : List Row) → map f (xs ++ ys) ≡ map f xs ++ map f ys
map-append f [] ys = refl
map-append f (x ∷ xs) ys = ap (λ l. f x ∷ l) (map-append f xs ys)

places-rows_of_query :
    (samples : Samples) (base : Dict String ℕ) (streams : Dict ℕ ℕ) (qid : String) (ns : List ℕ)
    → map place (rows_of_query samples base streams qid ns) ≡ pairs_with qid ns
unfolding rows_of_query row
places-rows_of_query samples base streams qid [] = refl
places-rows_of_query samples base streams qid (n ∷ ns) =
    ap (λ l. (qid, n) ∷ l) (places-rows_of_query samples base streams qid ns)

places-rows_of :
    (samples : Samples) (base : Dict String ℕ) (streams : Dict ℕ ℕ) (qids : List String)
    (ns : List ℕ)
    → map place (rows_of samples base streams qids ns) ≡ pairs qids ns
unfolding rows_of
places-rows_of samples base streams [] ns = refl
places-rows_of samples base streams (qid ∷ qids) ns =
    map-append place (rows_of_query samples base streams qid ns)
      (rows_of samples base streams qids ns)
    ∙ ap₂ ◌++◌ (places-rows_of_query samples base streams qid ns)
        (places-rows_of samples base streams qids ns)

-- The curve has one row for each query and each concurrency, a query without a sample included, by the
-- names of the queries and then by the concurrency.
pub places-aggregate :
    (samples : Samples) (streams : Dict ℕ ℕ) (qids : List String)
    → map place (aggregate samples streams qids)
      ≡ pairs (sorted name_le qids) (sorted leb (keys streams))
unfolding aggregate
places-aggregate samples streams qids =
    places-rows_of samples (baselines samples qids) streams (sorted name_le qids)
      (sorted leb (keys streams))

all-append :
    (p : Row → Bool) (xs ys : List Row)
    → all p xs ≡ true
    → all p ys ≡ true
    → all p (xs ++ ys) ≡ true
all-append p [] ys h k = k
all-append p (x ∷ xs) ys h k =
    let (now, later) = &&-split (p x) (all p xs) h in
    &&-join (p x) (all p (xs ++ ys)) now (all-append p xs ys later k)

-- A test that every row that `row` makes passes.
module _ (p : Row → Bool) (samples : Samples) (base : Dict String ℕ) (streams : Dict ℕ ℕ)
    (h : (qid : String) (n attempted : ℕ) → p (row samples base qid n attempted) ≡ true) where
  all-rows_of_query :
      (qid : String) (ns : List ℕ) → all p (rows_of_query samples base streams qid ns) ≡ true
  unfolding rows_of_query
  all-rows_of_query qid [] = refl
  all-rows_of_query qid (n ∷ ns) =
      &&-join _ _ (h qid n (lookup_or n 0 streams)) (all-rows_of_query qid ns)

  all-rows_of :
      (qids : List String) (ns : List ℕ) → all p (rows_of samples base streams qids ns) ≡ true
  unfolding rows_of
  all-rows_of [] ns = refl
  all-rows_of (qid ∷ qids) ns = all-append p _ _ (all-rows_of_query qid ns) (all-rows_of qids ns)

pub all-aggregate :
    (p : Row → Bool) (samples : Samples) (streams : Dict ℕ ℕ) (qids : List String)
    → ((qid : String) (n attempted : ℕ)
        → p (row samples (baselines samples qids) qid n attempted) ≡ true)
    → all p (aggregate samples streams qids) ≡ true
unfolding aggregate
all-aggregate p samples streams qids h =
    all-rows_of p samples (baselines samples qids) streams h (sorted name_le qids)
      (sorted leb (keys streams))
