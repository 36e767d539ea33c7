-- ===== src/Published/Tables/Laws.antt =====
-- What `render_bench_md` of reports/build_published.py knows of the engines, and the queries that it lists.
use delta_forge_benchmarks.Common.{
  ℕ, ◌≡◌, refl, ap, ap₂, ◌∙◌, Bool, true, false, ◌||◌, Option, none, some, List, [], ◌∷◌, map, any,
  length, contains, keep, not, arith, sym, ◌==◌, nat_eq, list_eq, Bool-cases, inl, inr, ==-sound,
}
use delta_forge_benchmarks.Common.Dict.{Dict, lookup, keys, NodupKeys}
use delta_forge_benchmarks.Common.Distinct.{AllDistinct, is_some, contains-keys}
use delta_forge_benchmarks.Common.Text.{Text, codes}
use delta_forge_benchmarks.Published.Medians.{Line, load_engine_records}
use delta_forge_benchmarks.Published.Medians.Keys.{load_engine_records-NodupKeys}
use delta_forge_benchmarks.Published.Medians.Laws.{warm_times, lookup-load_engine_records}
use delta_forge_benchmarks.Published.Tables.{
  engine_order, EngineData, is_df, load_engine, add_keys, queries_of, medians_of_df,
}
use delta_forge_benchmarks.Stats.Percentile.{Ms, median}

-- The engine has a warm run of the query without an error.
abbrev has_any : List Ms → Bool
has_any [] = false
has_any (m ∷ ms) = true

abbrev pub is_completed : Text → Option (List Line) → Bool
is_completed q none = false
is_completed q (some lines) = has_any (warm_times q lines)

or_again : (a b : Bool) → (a ≡ true → b ≡ true) → b ≡ (a || b)
or_again true b h = h refl
or_again false b h = refl

contains_same :
    (q k : Text) (qs : List Text) → contains qs k ≡ true → (q == k) ≡ true → contains qs q ≡ true
contains_same q k qs h e = ap (contains qs) (==-sound q k e) ∙ h

contains-add_keys :
    (q : Text) (ks qs : List Text) → contains (add_keys ks qs) q ≡ (contains ks q || contains qs q)
unfolding add_keys
contains-add_keys q [] qs = refl
contains-add_keys q (k ∷ ks) qs = elim (Bool-cases (contains (add_keys ks qs) k)) [
  | inl old ↦ rw old (
      or_again (q == k) (contains (add_keys ks qs) q) (contains_same q k (add_keys ks qs) old)
      ∙ ap (λ b. q == k || b) (contains-add_keys q ks qs)
      ∙ or_assoc (q == k) (contains ks q) (contains qs q))
  | inr new ↦ rw new (
      ap (λ b. q == k || b) (contains-add_keys q ks qs)
      ∙ or_assoc (q == k) (contains ks q) (contains qs q))
]
  where
    or_assoc : (a b c : Bool) → (a || (b || c)) ≡ ((a || b) || c)
    or_assoc true b c = refl
    or_assoc false b c = refl

is_some-median : (ms : List Ms) → is_some (median ms) ≡ has_any ms
unfolding median
is_some-median [] = refl
is_some-median (m ∷ ms) = refl

pub contains-load_engine :
    (q : Text) (jsonl : Text → Option (List Line)) (e : Text)
    → contains (keys (load_engine jsonl e).medians) q ≡ is_completed q (jsonl e)
unfolding load_engine
contains-load_engine q jsonl e = by_file (jsonl e)
  where
    by_file :
        (o : Option (List Line))
        → contains (keys (load_engine (λ _. o) e).medians) q ≡ is_completed q o
    by_file none = refl
    by_file (some lines) =
        contains-keys q (load_engine_records lines).0
        ∙ ap is_some (lookup-load_engine_records q lines).0
        ∙ is_some-median (warm_times q lines)

pub contains-queries_of :
    (q : Text) (jsonl : Text → Option (List Line)) (es : List Text)
    → contains (queries_of (map (load_engine jsonl) es)) q ≡ any (λ e. is_completed q (jsonl e)) es
unfolding queries_of
contains-queries_of q jsonl [] = refl
contains-queries_of q jsonl (e ∷ es) =
    contains-add_keys q (keys (load_engine jsonl e).medians)
      (queries_of (map (load_engine jsonl) es))
    ∙ ap₂ ◌||◌ (contains-load_engine q jsonl e) (contains-queries_of q jsonl es)

add_keys-AllDistinct : (ks qs : List Text) → AllDistinct qs → AllDistinct (add_keys ks qs)
unfolding add_keys
add_keys-AllDistinct [] qs h = h
add_keys-AllDistinct (k ∷ ks) qs h = ground (arith, add_keys-AllDistinct ks qs h)

pub queries_of-AllDistinct : (ds : List EngineData) → AllDistinct (queries_of ds)
unfolding queries_of
queries_of-AllDistinct [] = tt
queries_of-AllDistinct (d ∷ ds) =
    add_keys-AllDistinct (keys d.medians) (queries_of ds) (queries_of-AllDistinct ds)

pub any_member :
    (p : Text → Bool) (es : List Text) (e : Text)
    → contains es e ≡ true
    → p e ≡ true
    → any p es ≡ true
any_member p [] e h k = cc
any_member p (x ∷ es) e h k = elim (Bool-cases (e == x)) [
  | inl same ↦ or_left (p x) (any p es) (sym (ap p (==-sound e x same)) ∙ k)
  | inr other ↦ or_right (p x) (any p es) (any_member p es e (ground (arith, other, h)) k)
]
  where
    or_left : (a b : Bool) → a ≡ true → (a || b) ≡ true
    or_left a b h = ground arith

    or_right : (a b : Bool) → b ≡ true → (a || b) ≡ true
    or_right a b h = ground arith

pub length-keys : (d : Dict Text ℕ) → length (keys d) ≡ length d
length-keys [] = refl
length-keys ((k, v) ∷ d) = omega (arith, length-keys d)

-- The engines that are compared with DeltaForge.
abbrev pub compared : List Text
compared = codes "duckdb" ∷ codes "spark-default" ∷ codes "spark-tuned" ∷ []

module _ (jsonl : Text → Option (List Line)) where
  -- The median of the warm runs without an error of a query on an engine.
  abbrev pub median_of : Text → Text → Option ℕ
  median_of q e = elim (jsonl e) [ none ↦ none | some lines ↦ median (warm_times q lines) ]

  pub load_engine_lem :
      (q e : Text)
      → ((load_engine jsonl e).engine ≡ e)
        × (lookup q (load_engine jsonl e).medians ≡ median_of q e)
        × NodupKeys (load_engine jsonl e).medians
  unfolding load_engine
  load_engine_lem q e = by_file (jsonl e)
    where
      by_file :
          (o : Option (List Line))
          → ((load_engine (λ _. o) e).engine ≡ e)
            × (lookup q (load_engine (λ _. o) e).medians
                ≡ (elim o [ none ↦ none | some lines ↦ median (warm_times q lines) ]))
            × NodupKeys (load_engine (λ _. o) e).medians
      by_file none = (refl, refl, tt)
      by_file (some lines) =
          (refl, (lookup-load_engine_records q lines).0, load_engine_records-NodupKeys lines)

  pub map_medians :
      (f : Option ℕ → Text) (q : Text) (es : List Text)
      → map (λ d. f (lookup q d.medians)) (map (load_engine jsonl) es)
        ≡ map (λ e. f (median_of q e)) es
  map_medians f q [] = refl
  map_medians f q (e ∷ es) = ap₂ ◌∷◌ (ap f (load_engine_lem q e).1) (map_medians f q es)

  is_df-load_engine : (e : Text) → is_df (load_engine jsonl e) ≡ (e == codes "df")
  is_df-load_engine e = ap (λ t. t == codes "df") (load_engine_lem [] e).0

  pub keep-compared :
      keep (λ d. not (is_df d)) (map (load_engine jsonl) engine_order)
      ≡ map (load_engine jsonl) compared
  unfolding list_eq nat_eq
  keep-compared =
      rw
        (
          is_df-load_engine (codes "df"),
          is_df-load_engine (codes "duckdb"),
          is_df-load_engine (codes "spark-default"),
          is_df-load_engine (codes "spark-tuned"),
        )
        refl

  pub medians_of_df_lem :
      medians_of_df (map (load_engine jsonl) engine_order)
      ≡ (load_engine jsonl (codes "df")).medians
  unfolding list_eq nat_eq
  medians_of_df_lem = rw (is_df-load_engine (codes "df")) refl
