-- ===== src/Common/Sort.antt =====
-- Python's `sorted` on a list, by a Boolean order: it is stable, so an insertion sort stands for it.
pub mod Laws
pub mod Numbers
pub mod Ranks
use mathlib.Core.Bool.{Bool}
use mathlib.Core.List.{List, [], ◌∷◌}
use delta_forge_benchmarks.Common.Tests.{if◌then◌else◌}

module _ {ℓ} {A : Type ℓ} (le : A → A → Bool) where
  abbrev pub insort : A → List A → List A
  insort x [] = x ∷ []
  insort x (y ∷ ys) = let rest = insort x ys in if le x y then x ∷ y ∷ ys else y ∷ rest

  unfoldable pub sorted : List A → List A
  sorted [] = []
  sorted (x ∷ xs) = insort x (sorted xs)
