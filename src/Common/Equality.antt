-- ===== src/Common/Equality.antt =====
-- Python's `==` and `in`, for every type whose equality can be decided.
use Prim.Native.Nat.{ℕ}
use Prim.Native.String.{String}
use mathlib.Core.Path.{◌≡◌, refl, sym, subst, ap, ap₂}
use mathlib.Core.Logic.{◌≢◌, ite, dite}
use mathlib.Core.Bool.{Bool, true, false, ◌||◌, ◌&&◌, Bool-discrete}
use mathlib.Core.Option.{Option, none, some, none-ne-some, some-ne-none, some-injective}
use mathlib.Core.List.{List, [], ◌∷◌, head-eq_of_cons-eq, tail-eq_of_cons-eq}
use native.Mathlib.Omega.{arith}
use native.Mathlib.Decide.{ℕ_discrete}
use text.Mathlib.Text
use text.Mathlib.TextEquality.{eq_iff}

pub record Eq {ℓ} (A : Type ℓ) : Type ℓ where
  pub dec : Discrete A

module _ {ℓ} {A : Type ℓ} ⦃e : Eq A⦄ where
  infix 50 ◌==◌
  abbrev pub ◌==◌ : A → A → Bool
  a == b = ite (e.dec a b) true false

  abbrev pub contains : List A → A → Bool
  contains [] a = false
  contains (x ∷ xs) a = a == x || contains xs a

  pub ==-sound : (a b : A) → (a == b) ≡ true → a ≡ b
  ==-sound a b h = ground arith

  pub ==-ne : (a b : A) → (a == b) ≡ false → a ≢ b
  ==-ne a b h p = ground arith

  pub ==_refl : (a : A) → (a == a) ≡ true
  ==_refl a = ground arith

  is_same : (a b : A) → a ≡ b → (a == b) ≡ true
  is_same a b p = subst (λ x. (a == x) ≡ true) p (==_refl a)

  option_dec : Discrete (Option A)
  option_dec none none = yes refl
  option_dec none (some b) = no (none-ne-some b)
  option_dec (some a) none = no (some-ne-none a)
  option_dec (some a) (some b) =
      dite (e.dec a b) (λ p. yes (ap some p)) (λ n. no (λ p. n (some-injective a b p)))

  instance unfoldable pub option_eq : Eq (Option A)
  unfolding option_dec
  option_eq = record { dec = option_dec }

  list_dec : Discrete (List A)
  list_dec [] [] = yes refl
  list_dec [] (y ∷ ys) = no (λ p. cc)
  list_dec (x ∷ xs) [] = no (λ p. cc)
  list_dec (x ∷ xs) (y ∷ ys) =
      let rest = list_dec xs ys in
      dite (e.dec x y)
        (λ p. dite rest (λ q. yes (ap₂ ◌∷◌ p q)) (λ n. no (λ r. n (tail-eq_of_cons-eq r))))
        (λ n. no (λ r. n (head-eq_of_cons-eq r)))

  instance unfoldable pub list_eq : Eq (List A)
  unfolding list_dec
  list_eq = record { dec = list_dec }

module _ {ℓ κ} {A : Type ℓ} {B : Type κ} ⦃e : Eq A⦄ ⦃f : Eq B⦄ where
  pair_dec : Discrete (A × B)
  pair_dec (a, b) (c, d) =
      dite (e.dec a c)
        (λ p. dite (f.dec b d) (λ q. yes (λ i. (p i, q i))) (λ n. no (λ r. n (ap (λ t. t.1) r))))
        (λ n. no (λ r. n (ap (λ t. t.0) r)))

  instance unfoldable pub pair_eq : Eq (A × B)
  unfolding pair_dec
  pair_eq = record { dec = pair_dec }

  pub pair-== : (a c : A) (b d : B) → ◌==◌ {A = A × B} (a, b) (c, d) ≡ (a == c && b == d)
  pair-== a c b d =
      same_truth (◌==◌ {A = A × B} (a, b) (c, d)) (a == c && b == d)
        (λ h.
          let p = ==-sound {A = A × B} (a, b) (c, d) h in
          both (a == c) (b == d) (is_same a c (ap (λ t. t.0) p)) (is_same b d (ap (λ t. t.1) p)))
        (λ h.
          let (p, q) = split (a == c) (b == d) h in
          is_same {A = A × B} (a, b) (c, d) (λ i. (==-sound a c p i, ==-sound b d q i)))
    where
      same_truth : (x y : Bool) → (x ≡ true → y ≡ true) → (y ≡ true → x ≡ true) → x ≡ y
      same_truth true y f g = sym (f refl)
      same_truth false true f g = g refl
      same_truth false false f g = refl

      both : (x y : Bool) → x ≡ true → y ≡ true → (x && y) ≡ true
      both x y p q = ground arith

      split : (x y : Bool) → (x && y) ≡ true → (x ≡ true) × (y ≡ true)
      split x y h = ground arith

-- Shut in proofs, where a split on a test yields the equation or its negation.
instance unfoldable pub nat_eq : Eq ℕ
unfolding ℕ_discrete
nat_eq = record { dec = ℕ_discrete }

instance unfoldable pub string_eq : Eq String
string_eq = record {
  dec = λ s t.
      dite (Bool-discrete (Text.◌==◌ s t) true) (λ same. yes ((eq_iff s t).0 same))
        (λ differ. no (λ p. differ ((eq_iff s t).1 p)));
}
