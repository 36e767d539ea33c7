-- ===== src/Common/Dict.antt =====
-- Python's dicts in insertion order, as association lists.
use mathlib.Core.Path.{◌≡◌, refl, ap, ◌∙◌}
use mathlib.Core.List.{List, [], ◌∷◌, ◌++◌}
use mathlib.Core.Option.{Option, none, some, some-ne-none}
use mathlib.Core.Bool.{Bool, true, false}
use native.Mathlib.Omega.{arith}
use delta_forge_benchmarks.Common.Tests.{if◌then◌else◌}
use delta_forge_benchmarks.Common.Equality.{Eq, ◌==◌}

abbrev pub Dict {ℓ κ} : Type ℓ → Type κ → Type (ℓ ⊔ κ)
Dict K V = List (K × V)

abbrev pub keys {ℓ κ} : {K : Type ℓ} {V : Type κ} → Dict K V → List K
keys [] = []
keys ((k, _) ∷ d) = k ∷ keys d

abbrev pub values {ℓ κ} : {K : Type ℓ} {V : Type κ} → Dict K V → List V
values [] = []
values ((_, v) ∷ d) = v ∷ values d

lookup_or_case {κ} :
    {V : Type κ} (b : Bool) (v default : V) (o : Option V)
    → (elim (if b then some v else o) [ none ↦ default | some w ↦ w ])
      ≡ (if b then v else (elim o [ none ↦ default | some w ↦ w ]))
lookup_or_case true v default o = refl
lookup_or_case false v default o = refl

module _ {ℓ κ} {K : Type ℓ} {V : Type κ} ⦃e : Eq K⦄ where
  -- `d.get(k)`
  abbrev pub lookup : K → Dict K V → Option V
  lookup k [] = none
  lookup k ((j, v) ∷ d) = let rest = lookup k d in if k == j then some v else rest

  -- `d.get(k, default)`
  abbrev pub lookup_or : K → V → Dict K V → V
  lookup_or k default d = elim (lookup k d) [ none ↦ default | some v ↦ v ]

  -- `d[k] = v`
  abbrev pub insert : K → V → Dict K V → Dict K V
  insert k v [] = (k, v) ∷ []
  insert k v ((j, w) ∷ d) = let rest = insert k v d in if k == j then (k, v) ∷ d else (j, w) ∷ rest

  abbrev pub NodupKeys : Dict K V → Type κ
  NodupKeys [] = Unit
  NodupKeys ((k, _) ∷ d) = (lookup k d ≡ none) × NodupKeys d

  pub lookup-insert :
      (j k : K) (v : V) (d : Dict K V)
      → lookup j (insert k v d) ≡ (if j == k then some v else lookup j d)
  lookup-insert j k v [] = refl
  lookup-insert j k v (_ ∷ d) = ground (arith, lookup-insert j k v d)

  pub insert-NodupKeys : (k : K) (v : V) (d : Dict K V) → NodupKeys d → NodupKeys (insert k v d)
  insert-NodupKeys k v [] _ = (refl, tt)
  insert-NodupKeys k v ((j, _) ∷ d) (fresh, u) =
      ground (arith, insert-NodupKeys k v d u, lookup-insert j k v d)

  pub lookup_or-cons :
      (j k : K) (v default : V) (d : Dict K V)
      → lookup_or j default ((k, v) ∷ d) ≡ (if j == k then v else lookup_or j default d)
  lookup_or-cons j k v default d = lookup_or_case (j == k) v default (lookup j d)

  pub lookup_or-insert :
      (j k : K) (v default : V) (d : Dict K V)
      → lookup_or j default (insert k v d) ≡ (if j == k then v else lookup_or j default d)
  lookup_or-insert j k v default d =
      ap (λ o. elim o [ none ↦ default | some w ↦ w ]) (lookup-insert j k v d)
      ∙ lookup_or_case (j == k) v default (lookup j d)

  -- A key that is not in the dict is added at its end.
  pub insert-eq-append :
      (k : K) (v : V) (d : Dict K V) → lookup k d ≡ none → insert k v d ≡ d ++ (k, v) ∷ []
  insert-eq-append k v [] h = refl
  insert-eq-append k v ((j, w) ∷ d) h = at_key (k == j) h (insert-eq-append k v d)
    where
      at_key :
          (b : Bool)
          → (if b then some w else lookup k d) ≡ none
          → (lookup k d ≡ none → insert k v d ≡ d ++ (k, v) ∷ [])
          → (if b then (k, v) ∷ d else (j, w) ∷ insert k v d) ≡ (j, w) ∷ (d ++ (k, v) ∷ [])
      at_key true h later = elim (some-ne-none w h) [ ]
      at_key false h later = ap (λ l. (j, w) ∷ l) (later h)
