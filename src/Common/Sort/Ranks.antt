-- ===== src/Common/Sort/Ranks.antt =====
-- Order statistics: the number that stands at a rank of a list, counted from 1.
use delta_forge_benchmarks.Common.{
  ℕ, zero, suc, ◌+◌, ◌≤◌, ◌<◌, ◌≡◌, refl, Bool, List, [], ◌∷◌, leb, length, get_or, count_if, arith,
}
use delta_forge_benchmarks.Common.Sort.{insort, sorted}
use delta_forge_benchmarks.Common.Sort.Laws.{length-sorted}
use delta_forge_benchmarks.Common.Sort.Numbers.{
  IsBelow, IsAscending, sorted-IsAscending, get_or_above,
}

-- At least `k` of the numbers are at most `v`, and all but `k - 1` of them are at least `v`.
abbrev pub IsRank : ℕ → ℕ → List ℕ → Type 0
IsRank k v xs = (k ≤ count_if (λ x. leb x v) xs) × (suc (length xs) ≤ k + count_if (leb v) xs)

count_if-insort :
    (p : ℕ → Bool) (x : ℕ) (xs : List ℕ) → count_if p (insort leb x xs) ≡ count_if p (x ∷ xs)
count_if-insort p x [] = refl
count_if-insort p x (y ∷ ys) = ground (arith, count_if-insort p x ys)

count_if-sorted : (p : ℕ → Bool) (xs : List ℕ) → count_if p (sorted leb xs) ≡ count_if p xs
unfolding sorted
count_if-sorted p [] = refl
count_if-sorted p (x ∷ xs) =
    ground (arith, count_if-insort p x (sorted leb xs), count_if-sorted p xs)

count_if-below : (a : ℕ) (xs : List ℕ) → IsBelow a xs → count_if (leb a) xs ≡ length xs
count_if-below a [] h = refl
count_if-below a (x ∷ xs) (le, h) = ground (arith, count_if-below a xs h)

get_or-IsRank :
    (xs : List ℕ) (i : ℕ) → IsAscending xs → i < length xs → IsRank (suc i) (get_or xs i 0) xs
get_or-IsRank [] i up h = absurd (omega arith)
get_or-IsRank (x ∷ xs) zero (below, up) h = ground (arith, count_if-below x xs below)
get_or-IsRank (x ∷ xs) (suc i) (below, up) h =
    let (low, high) = get_or-IsRank xs i up (omega arith) in
    ground (arith, low, high, get_or_above x xs i below (omega arith))

-- What stands at an index of the sorted list has the next number as its rank.
pub get_or-sorted-IsRank :
    (xs : List ℕ) (i : ℕ) → i < length xs → IsRank (suc i) (get_or (sorted leb xs) i 0) xs
get_or-sorted-IsRank xs i h =
    let v = get_or (sorted leb xs) i 0 in
    let (low, high) =
      get_or-IsRank (sorted leb xs) i (sorted-IsAscending xs)
        (omega (arith, length-sorted leb xs)) in
    (
      omega (arith, low, count_if-sorted (λ x. leb x v) xs),
      omega (arith, high, count_if-sorted (leb v) xs, length-sorted leb xs),
    )
