-- ===== src/Common/Distinct.antt =====
-- Lists of texts without a repetition, and the texts that they share.
use delta_forge_benchmarks.Common.{
  ◌+◌, ◌≡◌, ◌∙◌, refl, ap, Bool, true, false, ◌||◌, Option, none, some, List, [], ◌∷◌, count_if,
  length, contains, ◌==◌, nat_eq, list_eq, arith,
}
use delta_forge_benchmarks.Common.Dict.{Dict, lookup, keys, NodupKeys}
use delta_forge_benchmarks.Common.Sort.{insort, sorted}
use delta_forge_benchmarks.Common.Text.{Text, text_le}

abbrev pub AllDistinct : List Text → Type 0
AllDistinct [] = Unit
AllDistinct (x ∷ xs) = (contains xs x ≡ false) × AllDistinct xs

abbrev pub is_some {ℓ} : {A : Type ℓ} → Option A → Bool
is_some none = false
is_some (some a) = true

pub contains-keys :
    {V : Type 0} (q : Text) (d : Dict Text V) → contains (keys d) q ≡ is_some (lookup q d)
contains-keys q [] = refl
contains-keys q ((j, v) ∷ d) = ground (arith, contains-keys q d)

pub keys-AllDistinct : {V : Type 0} (d : Dict Text V) → NodupKeys d → AllDistinct (keys d)
keys-AllDistinct [] h = tt
keys-AllDistinct ((j, v) ∷ d) (fresh, h) =
    (contains-keys j d ∙ ap is_some fresh, keys-AllDistinct d h)

pub contains-insort :
    (q x : Text) (xs : List Text) → contains (insort text_le x xs) q ≡ (q == x || contains xs q)
contains-insort q x [] = refl
contains-insort q x (y ∷ ys) = ground (arith, contains-insort q x ys)

pub contains-sorted : (q : Text) (xs : List Text) → contains (sorted text_le xs) q ≡ contains xs q
unfolding sorted
contains-sorted q [] = refl
contains-sorted q (x ∷ xs) =
    contains-insort q x (sorted text_le xs) ∙ ap (λ b. q == x || b) (contains-sorted q xs)

insort-AllDistinct :
    (x : Text) (xs : List Text)
    → contains xs x ≡ false
    → AllDistinct xs
    → AllDistinct (insort text_le x xs)
insort-AllDistinct x [] fresh h = (refl, tt)
insort-AllDistinct x (y ∷ ys) fresh (new, h) =
    ground (arith, contains-insort y x ys, insort-AllDistinct x ys)

pub sorted-AllDistinct : (xs : List Text) → AllDistinct xs → AllDistinct (sorted text_le xs)
unfolding sorted
sorted-AllDistinct [] h = tt
sorted-AllDistinct (x ∷ xs) (fresh, h) =
    insort-AllDistinct x (sorted text_le xs) (contains-sorted x xs ∙ fresh)
      (sorted-AllDistinct xs h)

count_if_none : (k : Text) (qs : List Text) → contains qs k ≡ false → count_if (λ q. q == k) qs ≡ 0
count_if_none k [] h = refl
count_if_none k (q ∷ qs) h = ground (arith, count_if_none k qs)

count_if_once :
    (k : Text) (qs : List Text)
    → AllDistinct qs
    → contains qs k ≡ true
    → count_if (λ q. q == k) qs ≡ 1
count_if_once k [] h c = cc
count_if_once k (q ∷ qs) (fresh, h) c = ground (arith, count_if_once k qs h, count_if_none k qs)

count_if_split :
    (k : Text) (ks qs : List Text)
    → contains ks k ≡ false
    → count_if (contains (k ∷ ks)) qs ≡ count_if (λ q. q == k) qs + count_if (contains ks) qs
count_if_split k ks [] h = omega arith
count_if_split k ks (q ∷ qs) h = ground (arith, count_if_split k ks qs h)

count_if_never : (qs : List Text) → count_if (contains []) qs ≡ 0
count_if_never [] = refl
count_if_never (q ∷ qs) = count_if_never qs

-- Of a list without repetition, as many stand in another one as that has, if it has none twice and none that
-- is not in the list.
pub count_if-contains :
    (ks qs : List Text)
    → AllDistinct ks
    → AllDistinct qs
    → ((k : Text) → contains ks k ≡ true → contains qs k ≡ true)
    → count_if (contains ks) qs ≡ length ks
count_if-contains [] qs u v h = count_if_never qs
count_if-contains (k ∷ ks) qs (fresh, u) v h = omega (
  arith,
  count_if_split k ks qs fresh,
  count_if_once k qs v (h k (ground arith)),
  count_if-contains ks qs u v (λ j in_ks. h j (ground (arith, in_ks))),
)
