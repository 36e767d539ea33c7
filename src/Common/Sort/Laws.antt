-- ===== src/Common/Sort/Laws.antt =====
-- Lemmas on `sorted`: permutations, tests on all elements, and orders.
use mathlib.Core.List
use mathlib.Core.List.{Perm, Permᴰ}
use mathlib.Core.Logic.{∥∥₁_elim}
use mathlib.Core.List.Perm
use delta_forge_benchmarks.Common.{
  suc, ◌≡◌, refl, ap, ap₂, ◌∙◌, Bool, true, false, List, [], ◌∷◌, arith, all, &&-split, &&-join,
  length, if_elim,
}
use delta_forge_benchmarks.Common.Sort.{insort, sorted}

module _ {ℓ} {A : Type ℓ} (le : A → A → Bool) where
  insort-perm : (x : A) (l : List A) → Perm (insort le x l) (x ∷ l)
  insort-perm x [] = Perm.rfl
  insort-perm x (y ∷ ys) =
      if_elim (λ r. Perm r (x ∷ y ∷ ys)) (le x y) _ _ (λ _. Perm.rfl)
        (λ _. Perm.trans (Perm.cons y (insort-perm x ys)) (Perm.swap x y ys))

  pub sorted-perm : (l : List A) → Perm (sorted le l) l
  unfolding sorted
  sorted-perm [] = Perm.rfl
  sorted-perm (x ∷ xs) = Perm.trans (insort-perm x (sorted le xs)) (Perm.cons x (sorted-perm xs))

  length-insort : (x : A) (l : List A) → length (insort le x l) ≡ suc (length l)
  length-insort x [] = refl
  length-insort x (y ∷ ys) =
      if_elim (λ r. length r ≡ suc (suc (length ys))) (le x y) _ _ (λ _. refl)
        (λ _. ap suc (length-insort x ys))

  pub length-sorted : (l : List A) → length (sorted le l) ≡ length l
  unfolding sorted
  length-sorted [] = refl
  length-sorted (x ∷ xs) = omega (arith, length-insort x (sorted le xs), length-sorted xs)

module _ {ℓ} {A : Type ℓ} (p : A → Bool) (le : A → A → Bool) where
  all-insort : (x : A) (l : List A) → p x ≡ true → all p l ≡ true → all p (insort le x l) ≡ true
  all-insort x [] h k = &&-join _ _ h refl
  all-insort x (y ∷ ys) h k =
      let (now, later) = &&-split (p y) (all p ys) k in
      if_elim (λ r. all p r ≡ true) (le x y) _ _ (λ _. &&-join _ _ h k)
        (λ _. &&-join _ _ now (all-insort x ys h later))

  pub all-sorted : (l : List A) → all p l ≡ true → all p (sorted le l) ≡ true
  unfolding sorted
  all-sorted [] h = refl
  all-sorted (x ∷ xs) h =
      let (now, later) = &&-split (p x) (all p xs) h in
      all-insort x (sorted le xs) now (all-sorted xs later)

-- An order that is total and transitive, and antisymmetric.
pub record IsOrder {ℓ} {A : Type ℓ} (le : A → A → Bool) : Type ℓ where
  pub total : (a b : A) → le a b ≡ false → le b a ≡ true
  pub trans : (a b c : A) → le a b ≡ true → le b c ≡ true → le a c ≡ true
  pub antisymm : (a b : A) → le a b ≡ true → le b a ≡ true → a ≡ b

module _ {ℓ} {A : Type ℓ} (le : A → A → Bool) (o : IsOrder le) where
  insort_comm : (x y : A) (l : List A) → insort le x (insort le y l) ≡ insort le y (insort le x l)
  insort_comm x y [] = ground (arith, o.total x y, o.antisymm x y)
  insort_comm x y (z ∷ zs) =
      ground (arith, insort_comm x y zs, o.total x y, o.antisymm x y, o.trans x y z, o.trans y x z)

  insort-sorted_of_permᴰ : {xs ys : List A} → Permᴰ xs ys → sorted le xs ≡ sorted le ys
  unfolding sorted
  insort-sorted_of_permᴰ Permᴰ.nil = refl
  insort-sorted_of_permᴰ (Permᴰ.cons {b = b} {l₁ = l} p q) =
      ap (λ a. insort le a (sorted le l)) p ∙ ap (insort le b) (insort-sorted_of_permᴰ q)
  insort-sorted_of_permᴰ (Permᴰ.swap {a = a} {b = b} {l = l} p q) =
      insort_comm a b (sorted le l) ∙ ap₂ (λ x y. insort le x (insort le y (sorted le l))) q p
  insort-sorted_of_permᴰ (Permᴰ.trans p q) = insort-sorted_of_permᴰ p ∙ insort-sorted_of_permᴰ q

  -- Permuted lists are sorted alike.
  pub sorted-eq_of_perm : IsSet A → {xs ys : List A} → Perm xs ys → sorted le xs ≡ sorted le ys
  sorted-eq_of_perm set p = ∥∥₁_elim p (List.is_set set _ _) insort-sorted_of_permᴰ
