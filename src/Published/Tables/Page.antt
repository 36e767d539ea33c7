-- ===== src/Published/Tables/Page.antt =====
-- The tables of `render_bench_md` in reports/build_published.py, against the lines of the engines.
use delta_forge_benchmarks.Common.{
  ℕ, ◌≡◌, refl, sym, ap, ap₂, ◌∙◌, true, Option, List, [], ◌∷◌, ◌++◌, map, any, take, length,
  contains, count_if, nat_eq, list_eq,
}
use delta_forge_benchmarks.Common.Dict.{lookup, keys}
use delta_forge_benchmarks.Common.Distinct.{
  AllDistinct, keys-AllDistinct, contains-sorted, sorted-AllDistinct, count_if-contains,
}
use delta_forge_benchmarks.Common.Sort.{sorted}
use delta_forge_benchmarks.Common.Text.{Text, codes, show, text_le}
use delta_forge_benchmarks.Published.Format.{speedup, fmt_ms}
use delta_forge_benchmarks.Published.Medians.{Line}
use delta_forge_benchmarks.Published.Tables.{
  engine_order, engine_label, load_engine, queries_of, per_query_row, median_row, speedup_row,
  completion_row, medians_of_df, BenchTables, bench_tables,
}
use delta_forge_benchmarks.Published.Tables.Laws.{
  is_completed, contains-queries_of, queries_of-AllDistinct, any_member, length-keys,
  contains-load_engine, median_of, load_engine_lem, map_medians, compared, keep-compared,
  medians_of_df_lem,
}

module _ (jsonl : Text → Option (List Line)) where
  abbrev pub completed_count : List Text → Text → ℕ
  completed_count qs e = count_if (λ q. is_completed q (jsonl e)) qs

  -- The label of an engine, and how many of the listed queries it completed.
  abbrev pub completion_of : List Text → Text → List Text
  completion_of qs e =
      engine_label e ∷ (show (completed_count qs e) ++ codes " / " ++ show (length qs)) ∷ []

  abbrev pub times_of : Text → List Text
  times_of q = q ∷ map (λ e. fmt_ms (median_of jsonl q e)) engine_order

  abbrev pub speedups_of : Text → List Text
  speedups_of q =
      q ∷ map (λ e. speedup (median_of jsonl q (codes "df")) (median_of jsonl q e)) compared

  abbrev pub IsPage : BenchTables → Type 0
  IsPage t =
      ((q : Text) → contains t.queries q ≡ any (λ e. is_completed q (jsonl e)) engine_order)
      × AllDistinct t.queries
      × (map (take 2) t.completion ≡ map (completion_of t.queries) engine_order)
      × ((bottom : List Text) × (t.per_query ≡ map times_of t.queries ++ bottom ∷ []))
      × (t.speedups ≡ map speedups_of t.queries)

  listed : List Text
  listed = sorted text_le (queries_of (map (load_engine jsonl) engine_order))

  contains-listed :
      (q : Text) → contains listed q ≡ any (λ e. is_completed q (jsonl e)) engine_order
  unfolding listed
  contains-listed q =
      contains-sorted q (queries_of (map (load_engine jsonl) engine_order))
      ∙ contains-queries_of q jsonl engine_order

  listed-AllDistinct : AllDistinct listed
  unfolding listed
  listed-AllDistinct =
      sorted-AllDistinct (queries_of (map (load_engine jsonl) engine_order))
        (queries_of-AllDistinct (map (load_engine jsonl) engine_order))

  -- The keys of the medians of an engine are the listed queries that it completed.
  completed_count_lem :
      (e : Text)
      → contains engine_order e ≡ true
      → length (load_engine jsonl e).medians ≡ completed_count listed e
  completed_count_lem e known =
      let ks = keys (load_engine jsonl e).medians in
      sym (length-keys (load_engine jsonl e).medians)
      ∙ sym (
          count_if-contains ks listed
            (keys-AllDistinct (load_engine jsonl e).medians (load_engine_lem jsonl [] e).2)
            listed-AllDistinct
            (λ k h.
              contains-listed k
              ∙ any_member (λ e. is_completed k (jsonl e)) engine_order e known
                  (sym (contains-load_engine k jsonl e) ∙ h)))
      ∙ ap (λ p. count_if p listed) (λ i q. contains-load_engine q jsonl e i)

  completion_row_lem :
      (e : Text)
      → contains engine_order e ≡ true
      → take 2 (completion_row (length listed) (load_engine jsonl e)) ≡ completion_of listed e
  unfolding completion_row
  completion_row_lem e known =
      ap₂ (λ f n. engine_label f ∷ (show n ++ codes " / " ++ show (length listed)) ∷ [])
        (load_engine_lem jsonl [] e).0 (completed_count_lem e known)

  per_query_row_lem :
      (q : Text) → per_query_row (map (load_engine jsonl) engine_order) q ≡ times_of q
  unfolding per_query_row
  per_query_row_lem q = ap (λ l. q ∷ l) (map_medians jsonl fmt_ms q engine_order)

  speedup_row_lem :
      (q : Text)
      → speedup_row
          (medians_of_df (map (load_engine jsonl) engine_order))
          (map (load_engine jsonl) engine_order)
          q
        ≡ speedups_of q
  unfolding speedup_row
  speedup_row_lem q =
      ap₂ (λ df ds. q ∷ map (λ d. speedup (lookup q df) (lookup q d.medians)) ds)
        (medians_of_df_lem jsonl) (keep-compared jsonl)
      ∙ ap (λ m. q ∷ map (λ d. speedup m (lookup q d.medians)) (map (load_engine jsonl) compared))
          (load_engine_lem jsonl q (codes "df")).1
      ∙ ap (λ l. q ∷ l) (map_medians jsonl (speedup (median_of jsonl q (codes "df"))) q compared)

-- The page lists, once each, exactly the queries that some engine completed with a warm run; one that fails on
-- every engine is in no table. The completion table names, for each engine, the number of the listed queries
-- that it completed and the number of them all; the table of the times has for each listed query the median
-- warm time on each engine, and one line more; and that of the speedups, for each listed query, those of the
-- other engines against DeltaForge.
pub bench_tables-IsPage : (jsonl : Text → Option (List Line)) → IsPage jsonl (bench_tables jsonl)
unfolding bench_tables listed nat_eq list_eq
bench_tables-IsPage jsonl = (
  contains-listed jsonl,
  listed-AllDistinct jsonl,
  (λ i.
      completion_row_lem jsonl (codes "df") refl i
      ∷ completion_row_lem jsonl (codes "duckdb") refl i
      ∷ completion_row_lem jsonl (codes "spark-default") refl i
      ∷ completion_row_lem jsonl (codes "spark-tuned") refl i
      ∷ []),
  (
    median_row (map (load_engine jsonl) engine_order),
    ap
        (λ (f : Text → List Text).
          map f (listed jsonl) ++ median_row (map (load_engine jsonl) engine_order) ∷ [])
        (λ i q. per_query_row_lem jsonl q i),
  ),
  ap (λ (f : Text → List Text). map f (listed jsonl)) (λ i q. speedup_row_lem jsonl q i),
)
