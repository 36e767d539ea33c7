-- ===== src/Runner/Resolve/Laws.antt =====
-- The substitution of placeholders against a description of the text by its pieces.
use mathlib.Core.Bool.{false≢true}
use delta_forge_benchmarks.Common.{
  ℕ, zero, ◌≡◌, refl, sym, subst, Bool, true, false, not, ◌&&◌, &&-split, Option, ap, ◌∙◌, none,
  some, List, [], ◌∷◌, ◌++◌, ◌==◌, nat_eq, length, ==_refl, if_elim, ==-sound,
}
use delta_forge_benchmarks.Common.Text.{Text}
use delta_forge_benchmarks.Runner.Resolve.{
  Placeholder, data_dir, data_basename, scale, closed, brace, placeholder_at, substitute_from,
  substitute,
}

pub data Piece : Type 0 where
  char : ℕ → Piece
  hole : Placeholder → Piece

-- The text that the pieces make up.
abbrev pub print : List Piece → Text
print [] = []
print (char c ∷ ps) = c ∷ print ps
print (hole p ∷ ps) = brace ∷ closed p ++ print ps

abbrev is_hole : Option Placeholder → Bool
is_hole none = false
is_hole (some p) = true

-- A single brace, as in a Cypher map, begins no placeholder.
abbrev pub is_template : List Piece → Bool
is_template [] = true
is_template (char c ∷ ps) =
    not (c == brace && is_hole (placeholder_at (print ps))) && is_template ps
is_template (hole p ∷ ps) = is_template ps

abbrev pub expand : (Placeholder → Text) → List Piece → Text
expand value [] = []
expand value (char c ∷ ps) = c ∷ expand value ps
expand value (hole p ∷ ps) = value p ++ expand value ps

placeholder_at-closed : (p : Placeholder) (s : Text) → placeholder_at (closed p ++ s) ≡ some p
unfolding placeholder_at nat_eq
placeholder_at-closed data_dir s = refl
placeholder_at-closed data_basename s = refl
placeholder_at-closed scale s = refl

module _ (value : Placeholder → Text) where
  substitute_from-length :
      (p s : Text) → substitute_from value (length p) (p ++ s) ≡ substitute_from value zero s
  unfolding substitute_from
  substitute_from-length [] s = refl
  substitute_from-length (c ∷ p) s = substitute_from-length p s

  substitute_from_char :
      (c : ℕ) (s : Text)
      → (c ≡ brace → placeholder_at s ≡ none)
      → substitute_from value zero (c ∷ s) ≡ c ∷ substitute_from value zero s
  unfolding substitute_from
  substitute_from_char c s loose =
      if_elim (λ r. r ≡ c ∷ substitute_from value zero s) (c == brace) _ _
        (λ open_brace. rw (loose (==-sound c brace open_brace))) (λ _. refl)

  substitute_from_hole :
      (p : Placeholder) (s : Text)
      → substitute_from value zero (brace ∷ closed p ++ s) ≡ value p ++ substitute_from value zero s
  unfolding substitute_from
  substitute_from_hole p s =
      rw (==_refl brace, placeholder_at-closed p s)
        (ap (λ r. value p ++ r) (substitute_from-length (closed p) s))

  -- Each placeholder of a text is replaced by its value, and every other character stays, braces that
  -- begin no placeholder included.
  pub substitute-print :
      (ps : List Piece) → is_template ps ≡ true → substitute value (print ps) ≡ expand value ps
  unfolding substitute
  substitute-print [] h = refl
  substitute-print (char c ∷ ps) h =
      let (loose, rest) = &&-split _ _ h in
      substitute_from_char c (print ps) (no_hole (placeholder_at (print ps)) loose)
      ∙ ap (◌∷◌ c) (substitute-print ps rest)
    where
      no_hole :
          (o : Option Placeholder) → not (c == brace && is_hole o) ≡ true → c ≡ brace → o ≡ none
      no_hole none loose e = refl
      no_hole (some p) loose e =
          elim (false≢true (sym (ap not (both (c == brace) (same e))) ∙ loose)) [ ]
        where
          both : (b : Bool) → b ≡ true → (b && true) ≡ true
          both b p = rw p refl

          same : c ≡ brace → (c == brace) ≡ true
          same e = subst (λ d. (c == d) ≡ true) e (==_refl c)
  substitute-print (hole p ∷ ps) h =
      substitute_from_hole p (print ps) ∙ ap (λ r. value p ++ r) (substitute-print ps h)
