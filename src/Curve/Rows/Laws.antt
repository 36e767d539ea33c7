-- ===== src/Curve/Rows/Laws.antt =====
-- Lemmas on the rows that `aggregate` of scale_out/aggregate.py makes.
use delta_forge_benchmarks.Common.{
  ℕ, ◌*◌, ◌≡◌, refl, Bool, true, false, Option, none, some, List, [], ◌∷◌, String, ◌&&◌, leb, ltb,
  ◌==◌, nat_eq, string_eq, pair_eq, arith, inl, inr, all, not, le→leb, ltb→lt, Bool-cases, ==-ne,
  ◌≢◌, ◌<◌,
}
use delta_forge_benchmarks.Common.Dict.{Dict, lookup}
use delta_forge_benchmarks.Stats.Percentile.{round_ratio, Ms, percentile}
use delta_forge_benchmarks.Stats.Laws.{percentile_mono}
use delta_forge_benchmarks.Curve.Rows.Coverage.{all-aggregate}
use delta_forge_benchmarks.Curve.Rows.Round.{round_ratio_mono, over_threshold}
use delta_forge_benchmarks.Curve.Rows.{
  Samples, samples_of, Row, baselines, two_places, usable, ratio_of, flat_of, row, aggregate,
}

-- `p95` is at least `p50`, in hundredths of a millisecond, where they are known.
abbrev pub is_ordered : Option ℕ → Option ℕ → Bool
is_ordered none none = true
is_ordered none (some q) = false
is_ordered (some p) none = false
is_ordered (some p) (some q) = leb p q

abbrev pub percentiles_ordered : Row → Bool
percentiles_ordered r = is_ordered r.p50_ms r.p95_ms

-- The ratio is known exactly where the verdict on flatness is, and a ratio over the threshold is not flat.
abbrev pub verdict_fits : Option ℕ → Option Bool → Bool
verdict_fits none none = true
verdict_fits none (some f) = false
verdict_fits (some ratio) none = false
verdict_fits (some ratio) (some f) = not (f && ltb 1100 ratio)

abbrev pub flat_fits_ratio : Row → Bool
flat_fits_ratio r = verdict_fits r.ratio_p50_vs_n1 r.flat

percentiles_of :
    (vals : List Ms)
    → is_ordered (two_places (percentile vals 50)) (two_places (percentile vals 95)) ≡ true
unfolding percentile
percentiles_of [] = refl
percentiles_of (x ∷ []) = le→leb _ _ (omega arith)
percentiles_of (x ∷ y ∷ xs) = le→leb _ _ (
    round_ratio_mono _ _ 1000 (omega arith)
      (percentile_mono (x ∷ y ∷ xs) 50 95 _ _ (omega arith) (omega arith) refl refl))

-- In every row of the curve the rounded 95th percentile is at least the rounded median, and both are
-- known or neither.
pub percentiles_ordered-aggregate :
    (samples : Samples) (streams : Dict ℕ ℕ) (qids : List String)
    → all percentiles_ordered (aggregate samples streams qids) ≡ true
unfolding row
percentiles_ordered-aggregate samples streams qids =
    all-aggregate percentiles_ordered samples streams qids
      (λ qid n attempted. percentiles_of (samples_of samples qid n))

verdict_fits-usable :
    (p base : Option ℕ) → verdict_fits (ratio_of (usable p base)) (flat_of (usable p base)) ≡ true
verdict_fits-usable none base = refl
verdict_fits-usable (some p) none = refl
verdict_fits-usable (some p) (some b) = elim (Bool-cases (b == 0)) [
  | inl nothing ↦ rw nothing refl
  | inr some_time ↦ rw some_time (elim (Bool-cases (ltb 1100 (round_ratio (1000 * p) b))) [
    | inl over ↦ rw (over_threshold p b (pos_of_ne b (==-ne b 0 some_time)) (ltb→lt _ _ over)) refl
    | inr within ↦ rw within (never (leb (100 * p) (110 * b)))
  ])
]
  where
    pos_of_ne : (b : ℕ) → b ≢ 0 → 0 < b
    pos_of_ne b h = omega arith

    never : (f : Bool) → not (f && false) ≡ true
    never f = ground arith

-- In every row of the curve the verdict is given exactly where a ratio is, and no row whose ratio is
-- over 1.100 is called flat.
pub flat_fits_ratio-aggregate :
    (samples : Samples) (streams : Dict ℕ ℕ) (qids : List String)
    → all flat_fits_ratio (aggregate samples streams qids) ≡ true
unfolding row
flat_fits_ratio-aggregate samples streams qids =
    all-aggregate flat_fits_ratio samples streams qids (λ qid n attempted.
      verdict_fits-usable (percentile (samples_of samples qid n) 50)
        (lookup qid (baselines samples qids)))
