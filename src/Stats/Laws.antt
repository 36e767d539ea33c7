-- ===== src/Stats/Laws.antt =====
-- Lemmas on the two percentiles and the median.
use Prim.Native.Nat.{min}
use mathlib.Core.Option.{some-injective}
use mathlib.Core.Path.{subst₂}
use native.Mathlib.Nat.{mul_comm, mul-le-mul_left}
use native.Mathlib.Decide.{dec_lt}
use delta_forge_benchmarks.Common.{
  ℕ, suc, ◌+◌, ◌-◌, ◌*◌, ◌/◌, ◌%◌, ◌≤◌, ◌≡◌, refl, sym, ap, ◌∙◌, some, List, [], ◌∷◌, arith, leb,
  ◌==◌, nat_eq, ==-sound, ==-ne, length, get_or, if_elim,
}
use delta_forge_benchmarks.Common.Sort.{sorted}
use delta_forge_benchmarks.Common.Sort.Laws.{length-sorted}
use delta_forge_benchmarks.Common.Sort.Numbers.{IsAscending, get_or_mono, sorted-IsAscending}
use delta_forge_benchmarks.Stats.Percentile.{
  Ms, interpolate, percentile, report_interpolate, report_percentile,
}

-- One value at a time: the weighted mean lies between its ends, grows with the weight, and is the
-- lower end with the difference added.
mix_difference : (a b f : ℕ) → f ≤ 100 → a ≤ b → a * (100 - f) + b * f ≡ a * 100 + (b - a) * f
mix_difference a b f h k =
    let e : f + (100 - f) ≡ 100 = omega arith in
    let d : a + (b - a) ≡ b = omega arith in
    omega (arith, ap (λ (t : ℕ). a * t) e, ap (λ (t : ℕ). t * f) d)

mix_bounds :
    (a b f : ℕ)
    → f ≤ 100
    → a ≤ b
    → (a * 100 ≤ a * (100 - f) + b * f) × (a * (100 - f) + b * f ≤ b * 100)
mix_bounds a b f h k =
    let e : f + (100 - f) ≡ 100 = omega arith in
    let d : a + (b - a) ≡ b = omega arith in
    omega (
      arith,
      ap (λ (t : ℕ). a * t) e,
      ap (λ (t : ℕ). b * t) e,
      ap (λ (t : ℕ). t * f) d,
      ap (λ (t : ℕ). t * (100 - f)) d,
    )

mix_mono : (a b f g : ℕ) → f ≤ g → g ≤ 100 → a ≤ b → a * (100 - f) + b * f ≤ a * (100 - g) + b * g
mix_mono a b f g h k l =
    let e : (100 - g) + (g - f) ≡ 100 - f = omega arith in
    let r : f + (g - f) ≡ g = omega arith in
    let d : a + (b - a) ≡ b = omega arith in
    omega (arith, ap (λ (t : ℕ). a * t) e, ap (λ (t : ℕ). b * t) r, ap (λ (t : ℕ). t * (g - f)) d)

module _ (s : List Ms) (up : IsAscending s) (long : 2 ≤ length s) where
  abbrev low : ℕ → ℕ
  low k = get_or s (k / 100) 0

  abbrev high : ℕ → ℕ
  high k = get_or s (min (k / 100 + 1) (length s - 1)) 0

  low-le-high : (k : ℕ) → k ≤ (length s - 1) * 100 → low k ≤ high k
  low-le-high k h =
      get_or_mono s (k / 100) (min (k / 100 + 1) (length s - 1)) up (omega arith) (omega arith)

  interpolate_mono :
      (j k : ℕ) → j ≤ k → k ≤ (length s - 1) * 100 → interpolate s j ≤ interpolate s k
  unfolding interpolate
  interpolate_mono j k h bound = elim (dec_lt (j / 100) (k / 100)) [
    | yes lt ↦ omega (
      arith,
      (mix_bounds (low j) (high j) (j % 100) (omega arith) (low-le-high j (omega arith))).1,
      get_or_mono s (min (j / 100 + 1) (length s - 1)) (k / 100) up (omega arith) (omega arith),
      (mix_bounds (low k) (high k) (k % 100) (omega arith) (low-le-high k bound)).0,
    )
    | no ge ↦
        let same : j / 100 ≡ k / 100 = omega arith in
        rw same (
          mix_mono (low k) (high k) (j % 100) (k % 100) (omega arith) (omega arith)
            (low-le-high k bound))
  ]

  report_interpolate-eq :
      (k : ℕ) → k ≤ (length s - 1) * 100 → report_interpolate s k ≡ interpolate s k
  unfolding interpolate report_interpolate
  report_interpolate-eq k h =
      if_elim (λ r. r ≡ interpolate s k) (k / 100 == (k + 99) / 100) _ _
        (λ whole.
          let none_left : k % 100 ≡ 0 = omega (arith, ==-sound (k / 100) ((k + 99) / 100) whole) in
          rw none_left (omega arith))
        (λ between.
          let apart = ==-ne (k / 100) ((k + 99) / 100) between in
          let next : (k + 99) / 100 ≡ min (k / 100 + 1) (length s - 1) = omega (arith, apart) in
          let frac : k - k / 100 * 100 ≡ k % 100 = omega arith in
          rw (next, frac)
            (sym (mix_difference (low k) (high k) (k % 100) (omega arith) (low-le-high k h))))

-- The facts about the sorted values, for two values or more.
module _ (x y : Ms) (xs : List Ms) where
  abbrev in_order : List Ms
  in_order = sorted leb (x ∷ y ∷ xs)

  in_order-IsAscending : IsAscending in_order
  in_order-IsAscending = sorted-IsAscending (x ∷ y ∷ xs)

  length-in_order : length in_order ≡ suc (suc (length xs))
  length-in_order = length-sorted leb (x ∷ y ∷ xs)

  -- A rank up to the 100th percentile lies within the list.
  rank_within :
      (pct : ℕ) → pct ≤ 100 → (length (x ∷ y ∷ xs) - 1) * pct ≤ (length in_order - 1) * 100
  rank_within pct h = rw length-in_order (mul-le-mul_left (suc (suc (length xs)) - 1) h)

-- The two implementations of the percentile agree up to the 100th, NaN on no values included.
pub percentile-eq-report_percentile :
    (values : List Ms) (pct : ℕ) → pct ≤ 100 → percentile values pct ≡ report_percentile values pct
unfolding percentile report_percentile
percentile-eq-report_percentile [] pct h = refl
percentile-eq-report_percentile (x ∷ []) pct h = refl
percentile-eq-report_percentile (x ∷ y ∷ xs) pct h = ap some (
    sym (
      report_interpolate-eq (in_order x y xs) (in_order-IsAscending x y xs)
        (omega (arith, length-in_order x y xs)) ((suc (suc (length xs)) - 1) * pct)
        (rank_within x y xs pct h))
    ∙ ap (report_interpolate (in_order x y xs)) (mul_comm (suc (suc (length xs)) - 1) pct))

-- Of the same values, a higher percentile up to the 100th is at least as great.
pub percentile_mono :
    (values : List Ms) (p q a b : ℕ)
    → p ≤ q
    → q ≤ 100
    → percentile values p ≡ some a
    → percentile values q ≡ some b
    → a ≤ b
unfolding percentile
percentile_mono [] p q a b h k e f = cc
percentile_mono (x ∷ []) p q a b h k e f = ground arith
percentile_mono (x ∷ y ∷ xs) p q a b h k e f =
    subst₂ ◌≤◌ (some-injective _ _ e) (some-injective _ _ f) (
      interpolate_mono (in_order x y xs) (in_order-IsAscending x y xs)
        (omega (arith, length-in_order x y xs)) ((suc (suc (length xs)) - 1) * p)
        ((suc (suc (length xs)) - 1) * q) (mul-le-mul_left (suc (suc (length xs)) - 1) h)
        (rank_within x y xs q k))
