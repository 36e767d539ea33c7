-- ===== src/Curve/Rows/Round.antt =====
-- Lemmas on `round` of a ratio.
use native.Mathlib.Nat.{div-add-mod, mod-lt, mul-suc, mul-le-mul_left}
use delta_forge_benchmarks.Stats.Percentile.{round_ratio}
use delta_forge_benchmarks.Common.{
  ℕ, suc, ◌+◌, ◌*◌, ◌/◌, ◌%◌, ◌≤◌, ◌<◌, ◌≡◌, true, false, leb, ltb, if_elim, ◌==◌, nat_eq, arith,
  ◌⊎◌, inl, inr, Bool-cases, leb→le, subst,
}

IsNear : ℕ → ℕ → ℕ → Type 0
IsNear a c v = (2 * (c * v) ≤ 2 * a + c) × (2 * a ≤ 2 * (c * v) + c)

IsNear-down : (a c : ℕ) → 2 * (a % c) ≤ c → IsNear a c (a / c)
unfolding IsNear
IsNear-down a c h = let whole = div-add-mod a c in (omega (arith, whole), omega (arith, whole))

IsNear-up : (a c : ℕ) → 0 < c → c ≤ 2 * (a % c) → IsNear a c (suc (a / c))
unfolding IsNear
IsNear-up a c p h =
    let whole = div-add-mod a c in
    let below = mod-lt a p in
    let next = mul-suc c (a / c) in (omega (arith, whole), omega (arith, whole))

ltb-false : (a b : ℕ) → ltb a b ≡ false → b ≤ a
ltb-false a b h = ground arith

ltb-true : (a b : ℕ) → ltb a b ≡ true → a ≤ b
ltb-true a b h = ground arith

-- `round` is off by a half at most.
round_ratio-IsNear : (a c : ℕ) → 0 < c → IsNear a c (round_ratio a c)
unfolding round_ratio
round_ratio-IsNear a c p =
    if_elim (IsNear a c) (ltb (2 * (a % c)) c) _ _ (λ low. IsNear-down a c (ltb-true _ _ low))
      (λ high.
        if_elim (IsNear a c) (ltb c (2 * (a % c))) _ _ (λ _. IsNear-up a c p (ltb-false _ _ high))
          (λ half.
            if_elim (IsNear a c) (a / c % 2 == 0) _ _ (λ _. IsNear-down a c (ltb-false _ _ half))
              (λ _. IsNear-up a c p (ltb-false _ _ high))))

at_most : (m n : ℕ) → (m ≤ n) ⊎ (suc n ≤ m)
at_most m n = elim (Bool-cases (leb m n)) [
  | inl le ↦ inl (leb→le m n le)
  | inr gt ↦ inr (not_leb m n gt)
]
  where
    not_leb : (m n : ℕ) → leb m n ≡ false → suc n ≤ m
    not_leb m n h = ground arith

-- `round` keeps the order: a half that is rounded to an even neighbour too.
pub round_ratio_mono : (a b c : ℕ) → 0 < c → a ≤ b → round_ratio a c ≤ round_ratio b c
unfolding IsNear
round_ratio_mono a b c p le =
    let (upper, _) = round_ratio-IsNear a c p in
    let (_, lower) = round_ratio-IsNear b c p in
    elim (at_most (round_ratio a c) (round_ratio b c)) [
      | inl ok ↦ ok
      | inr more ↦
          let next = mul-suc c (round_ratio b c) in
          let times = mul-le-mul_left c more in
          let same : a ≡ b = omega (arith, upper, lower, next, times, le) in
          subst (λ d. round_ratio a c ≤ round_ratio d c) same (omega arith)
    ]

-- A ratio in thousandths that is rounded to more than 1.1 is over the threshold.
pub over_threshold :
    (p base : ℕ)
    → 0 < base
    → 1100 < round_ratio (1000 * p) base
    → leb (100 * p) (110 * base) ≡ false
unfolding IsNear
over_threshold p base pos over =
    let (upper, _) = round_ratio-IsNear (1000 * p) base pos in
    let times = mul-le-mul_left base over in
    gt_leb (100 * p) (110 * base) (omega (arith, upper, times, pos))
  where
    gt_leb : (m n : ℕ) → n < m → leb m n ≡ false
    gt_leb m n h = ground arith
