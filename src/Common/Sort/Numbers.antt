-- ===== src/Common/Sort/Numbers.antt =====
-- `sorted` on numbers.
use delta_forge_benchmarks.Common.Tests.{leb, if_elim}
use delta_forge_benchmarks.Common.Lists.{length, get_or}
use delta_forge_benchmarks.Common.Sort.{insort, sorted}
use Prim.Native.Nat.{ℕ, zero, suc, ◌≤◌, ◌<◌}
use mathlib.Core.List.{List, [], ◌∷◌}
use native.Mathlib.Omega.{arith}

abbrev pub IsBelow : ℕ → List ℕ → Type 0
IsBelow a [] = Unit
IsBelow a (x ∷ xs) = (a ≤ x) × IsBelow a xs

abbrev pub IsAscending : List ℕ → Type 0
IsAscending [] = Unit
IsAscending (x ∷ xs) = IsBelow x xs × IsAscending xs

IsBelow-trans : (a b : ℕ) (xs : List ℕ) → a ≤ b → IsBelow b xs → IsBelow a xs
IsBelow-trans a b [] h k = tt
IsBelow-trans a b (x ∷ xs) h k = (omega arith, IsBelow-trans a b xs h k.1)

IsBelow-insort : (a x : ℕ) (xs : List ℕ) → a ≤ x → IsBelow a xs → IsBelow a (insort leb x xs)
IsBelow-insort a x [] h k = (h, tt)
IsBelow-insort a x (y ∷ ys) h k =
    if_elim (IsBelow a) (leb x y) _ _ (λ _. (h, k)) (λ _. (k.0, IsBelow-insort a x ys h k.1))

insort-IsAscending : (x : ℕ) (xs : List ℕ) → IsAscending xs → IsAscending (insort leb x xs)
insort-IsAscending x [] h = (tt, tt)
insort-IsAscending x (y ∷ ys) (below, rest) =
    if_elim IsAscending (leb x y) _ _
      (λ le. ((ground arith, IsBelow-trans x y ys (ground arith) below), (below, rest)))
      (λ gt. (IsBelow-insort y x ys (ground arith) below, insort-IsAscending x ys rest))

pub sorted-IsAscending : (xs : List ℕ) → IsAscending (sorted leb xs)
unfolding sorted
sorted-IsAscending [] = tt
sorted-IsAscending (x ∷ xs) = insort-IsAscending x (sorted leb xs) (sorted-IsAscending xs)

pub get_or_above : (a : ℕ) (xs : List ℕ) (i : ℕ) → IsBelow a xs → i < length xs → a ≤ get_or xs i 0
get_or_above a [] i b h = absurd (omega arith)
get_or_above a (x ∷ xs) zero b h = b.0
get_or_above a (x ∷ xs) (suc i) b h = get_or_above a xs i b.1 (omega arith)

-- Indexing an ascending list keeps the order of the indices.
pub get_or_mono :
    (xs : List ℕ) (i j : ℕ) → IsAscending xs → i ≤ j → j < length xs → get_or xs i 0 ≤ get_or xs j 0
get_or_mono [] i j a h k = absurd (omega arith)
get_or_mono (x ∷ xs) zero zero a h k = omega arith
get_or_mono (x ∷ xs) zero (suc j) a h k = get_or_above x xs j a.0 (omega arith)
get_or_mono (x ∷ xs) (suc i) zero a h k = absurd (omega arith)
get_or_mono (x ∷ xs) (suc i) (suc j) a h k = get_or_mono xs i j a.1 (omega arith) (omega arith)
