-- ===== src/Curve/Main/Laws.antt =====
-- The samples that the walk of scale_out/aggregate.py collects, against a description by stream.
use mathlib.Core.List.{append_assoc, append-nil}
use delta_forge_benchmarks.Common.{
  ℕ, ◌≡◌, refl, sym, ap, ap₂, ◌∙◌, Bool, true, false, not, ◌&&◌, Option, none, some, List, [], ◌∷◌,
  ◌++◌, String, if◌then◌else◌, if_elim, ◌==◌, nat_eq, string_eq, pair_eq, ==-sound, pair-==,
}
use delta_forge_benchmarks.Common.Dict.{
  Dict, lookup, insert, lookup_or-insert, NodupKeys, insert-NodupKeys,
}
use delta_forge_benchmarks.Common.Text.{Text}
use delta_forge_benchmarks.Runner.Run.{StepRecord}
use delta_forge_benchmarks.Stats.Percentile.{Ms}
use delta_forge_benchmarks.Curve.Timings.{
  counts, is_timed, add_timing, add_timings, load_query_timings, lookup-load_query_timings,
  last_warm_run, first_run, or_else,
}
use delta_forge_benchmarks.Curve.Rows.{Samples, samples_of}
use delta_forge_benchmarks.Curve.Main.{
  DirEntry, Collected, discover_jsonl, stream_of, add_samples, add_stream, add_jsonl, add_entry,
  collect, nothing_collected,
}

add_timing-NodupKeys :
    (timings : Dict String Ms) (r : StepRecord)
    → NodupKeys timings
    → NodupKeys (add_timing timings r)
unfolding add_timing
add_timing-NodupKeys timings r u =
    let v = insert-NodupKeys r.step_id r.wall_ms timings u in
    if_elim NodupKeys (counts r) _ _
      (λ _.
        if_elim NodupKeys (is_timed (lookup r.step_id timings)) _ _
          (λ _. if_elim NodupKeys (not r.cold) _ _ (λ _. v) (λ _. u)) (λ _. v))
      (λ _. u)

add_timings-NodupKeys :
    (rs : List StepRecord) (timings : Dict String Ms)
    → NodupKeys timings
    → NodupKeys (add_timings timings rs)
unfolding add_timings
add_timings-NodupKeys [] timings u = u
add_timings-NodupKeys (r ∷ rs) timings u =
    add_timings-NodupKeys rs (add_timing timings r) (add_timing-NodupKeys timings r u)

load_query_timings-NodupKeys : (rs : List StepRecord) → NodupKeys (load_query_timings rs)
unfolding load_query_timings
load_query_timings-NodupKeys rs = add_timings-NodupKeys rs [] tt

abbrev pub list_of : Option Ms → List Ms
list_of none = []
list_of (some m) = m ∷ []

-- One more timing among the samples, by the tests on the query and on the concurrency.
one_more :
    (same_q same_n : Bool) (old new : List Ms) (o : Option Ms) (w : Ms)
    → (same_q ≡ true → same_n ≡ true → new ≡ old ++ w ∷ [])
    → (same_q ≡ true → o ≡ none)
    → (if same_q && same_n then new else old) ++ (if same_n then list_of o else [])
      ≡ old ++ (if same_n then list_of (if same_q then some w else o) else [])
one_more true true old new o w h k =
    ap₂ (λ l p. l ++ list_of p) (h refl refl) (k refl) ∙ append-nil (old ++ w ∷ [])
one_more true false old new o w h k = refl
one_more false true old new o w h k = refl
one_more false false old new o w h k = refl

samples-add_samples :
    (q : String) (n m : ℕ) (timings : Dict String Ms) (samples : Samples)
    → NodupKeys timings
    → samples_of (add_samples m timings samples) q n
      ≡ samples_of samples q n ++ (if n == m then list_of (lookup q timings) else [])
unfolding add_samples
samples-add_samples q n m [] samples u = sym (nothing (n == m) (samples_of samples q n))
  where
    nothing : (b : Bool) (l : List Ms) → l ++ (if b then [] else []) ≡ l
    nothing true l = append-nil l
    nothing false l = append-nil l
samples-add_samples q n m ((p, w) ∷ timings) samples (fresh, u) =
    let more = samples_of samples p m ++ w ∷ [] in
    samples-add_samples q n m timings (insert (p, m) more samples) u
    ∙ ap (λ l. l ++ (if n == m then list_of (lookup q timings) else []))
        (lookup_or-insert (q, n) (p, m) more [] samples
          ∙ ap (λ b. if b then more else samples_of samples q n) (pair-== q p n m))
    ∙ one_more (q == p) (n == m) (samples_of samples q n) more (lookup q timings) w
        (λ same_q same_n.
          ap₂ (λ r k. samples_of samples r k ++ w ∷ []) (sym (==-sound q p same_q))
            (sym (==-sound n m same_n)))
        (λ same_q. ap (λ r. lookup r timings) (==-sound q p same_q) ∙ fresh)

-- The timing that a stream adds to the samples of a query.
abbrev pub stream_timing : String → ℕ → Option ℕ → Option (List StepRecord) → List Ms
stream_timing q n none jsonl = []
stream_timing q n (some m) none = []
stream_timing q n (some m) (some records) =
    if n == m then list_of (or_else (last_warm_run q records) (first_run q records)) else []

-- The timings of a query in the streams of a run at a concurrency.
abbrev pub timings_at : Text → List ℕ → String → ℕ → List DirEntry → List Ms
timings_at run_ts n_values q n [] = []
timings_at run_ts n_values q n (d ∷ ds) =
    stream_timing q n (stream_of run_ts n_values d) (discover_jsonl d)
    ++ timings_at run_ts n_values q n ds

samples-add_stream :
    (name : Text) (q : String) (n m : ℕ) (timings : Dict String Ms) (c : Collected)
    → NodupKeys timings
    → samples_of (add_stream name m timings c).samples q n
      ≡ samples_of c.samples q n ++ (if n == m then list_of (lookup q timings) else [])
unfolding add_stream
samples-add_stream name q n m [] c u = sym (nothing (n == m) (samples_of c.samples q n))
  where
    nothing : (b : Bool) (l : List Ms) → l ++ (if b then [] else []) ≡ l
    nothing true l = append-nil l
    nothing false l = append-nil l
samples-add_stream name q n m (t ∷ timings) c u =
    samples-add_samples q n m (t ∷ timings) c.samples u

samples-add_entry :
    (q : String) (n : ℕ) (d : DirEntry) (stream : Option ℕ) (c : Collected)
    → samples_of (add_entry d stream c).samples q n
      ≡ samples_of c.samples q n ++ stream_timing q n stream (discover_jsonl d)
samples-add_entry q n d none c = sym (append-nil (samples_of c.samples q n))
samples-add_entry q n d (some m) c = by_jsonl (discover_jsonl d)
  where
    by_jsonl :
        (jsonl : Option (List StepRecord))
        → samples_of (add_jsonl d.name m jsonl c).samples q n
          ≡ samples_of c.samples q n ++ stream_timing q n (some m) jsonl
    by_jsonl none = sym (append-nil (samples_of c.samples q n))
    by_jsonl (some records) =
        samples-add_stream d.name q n m (load_query_timings records) c
          (load_query_timings-NodupKeys records)
        ∙ ap (λ o. samples_of c.samples q n ++ (if n == m then list_of o else []))
            (lookup-load_query_timings q records)

samples-collect_from :
    (run_ts : Text) (n_values : List ℕ) (q : String) (n : ℕ) (ds : List DirEntry) (c : Collected)
    → samples_of (collect run_ts n_values ds c).samples q n
      ≡ samples_of c.samples q n ++ timings_at run_ts n_values q n ds
unfolding collect
samples-collect_from run_ts n_values q n [] c = sym (append-nil (samples_of c.samples q n))
samples-collect_from run_ts n_values q n (d ∷ ds) c =
    let stream = stream_of run_ts n_values d in
    samples-collect_from run_ts n_values q n ds (add_entry d stream c)
    ∙ ap (λ l. l ++ timings_at run_ts n_values q n ds) (samples-add_entry q n d stream c)
    ∙ append_assoc (samples_of c.samples q n) (stream_timing q n stream (discover_jsonl d))
        (timings_at run_ts n_values q n ds)

-- The samples of a query at a concurrency are, in the order of the directories, the timings of the
-- streams of this run at this concurrency: one for each stream that has a successful run of the query,
-- its last warm one if there is one.
pub samples-collect :
    (run_ts : Text) (n_values : List ℕ) (q : String) (n : ℕ) (ds : List DirEntry)
    → samples_of (collect run_ts n_values ds nothing_collected).samples q n
      ≡ timings_at run_ts n_values q n ds
samples-collect run_ts n_values q n ds =
    samples-collect_from run_ts n_values q n ds nothing_collected
