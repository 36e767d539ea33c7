-- ===== src/Catalog/Stack.antt =====
-- The state of the scan in `df_qualify`, told from the tokens before.
use delta_forge_benchmarks.Common.{
  ℕ, zero, suc, ◌-◌, ◌≤◌, ◌<◌, ◌≡◌, refl, ap, ap₂, ◌∙◌, Bool, true, false, ◌&&◌, ◌||◌, List, [],
  ◌∷◌, arith,
}
use delta_forge_benchmarks.Common.Text.{Text}
use delta_forge_benchmarks.Catalog.Clause.{
  is_word, depth, begins_from, ends_from, in_from_clause, nearest,
}
use delta_forge_benchmarks.Catalog.Qualify.{Scan, kind, pop}

-- The clauses that the groups around a word go back to.
unfoldable pub outer_clauses : ℕ → List Text → List Bool
outer_clauses zero before = []
outer_clauses (suc level) before = in_from_clause level before ∷ outer_clauses level before

abbrev pub is_keyword : Text → Bool
is_keyword t = is_word (kind t) && (begins_from t || ends_from t)

in_from_clause_below :
    (level : ℕ) (t : Text) (before : List Text)
    → level < depth before
    → in_from_clause level (t ∷ before) ≡ in_from_clause level before
unfolding in_from_clause
in_from_clause_below level t before h = ground arith

in_from_clause_kept :
    (level : ℕ) (t : Text) (before : List Text)
    → depth before ≤ level
    → is_keyword t ≡ false
    → in_from_clause level (t ∷ before) ≡ in_from_clause (depth before) before
unfolding in_from_clause
in_from_clause_kept level t before h k = ground arith

in_from_clause_keyword :
    (t : Text) (before : List Text)
    → is_keyword t ≡ true
    → in_from_clause (depth before) (t ∷ before) ≡ begins_from t
unfolding in_from_clause
in_from_clause_keyword t before k = ground arith

outer_clauses_kept :
    (level : ℕ) (t : Text) (before : List Text)
    → level ≤ depth before
    → outer_clauses level (t ∷ before) ≡ outer_clauses level before
unfolding outer_clauses
outer_clauses_kept zero t before h = refl
outer_clauses_kept (suc level) t before h =
    ap₂ ◌∷◌ (in_from_clause_below level t before (omega arith))
      (outer_clauses_kept level t before (omega arith))

-- The state of the scan behind the tokens.
abbrev pub state_at : List Text → Scan
state_at before = record {
  in_from = in_from_clause (depth before) before;
  stack = outer_clauses (depth before) before;
  prev_sig = nearest before;
}

pub state_at_plain :
    (t : Text) (before : List Text) (p : Text)
    → depth (t ∷ before) ≡ depth before
    → is_keyword t ≡ false
    → nearest (t ∷ before) ≡ p
    → state_at (t ∷ before) ≡ record (state_at before) { prev_sig = p }
state_at_plain t before p same no_key last = λ i. record {
  in_from =
      (ap (λ d. in_from_clause d (t ∷ before)) same
          ∙ in_from_clause_kept (depth before) t before (omega arith) no_key)
        i;
  stack =
      (ap (λ d. outer_clauses d (t ∷ before)) same
          ∙ outer_clauses_kept (depth before) t before (omega arith))
        i;
  prev_sig = last i;
}

pub state_at_keyword :
    (t : Text) (before : List Text) (b : Bool)
    → depth (t ∷ before) ≡ depth before
    → is_keyword t ≡ true
    → begins_from t ≡ b
    → nearest (t ∷ before) ≡ t
    → state_at (t ∷ before) ≡ record (state_at before) { in_from = b; prev_sig = t }
state_at_keyword t before b same key begins last = λ i. record {
  in_from =
      (ap (λ d. in_from_clause d (t ∷ before)) same ∙ in_from_clause_keyword t before key ∙ begins)
        i;
  stack =
      (ap (λ d. outer_clauses d (t ∷ before)) same
          ∙ outer_clauses_kept (depth before) t before (omega arith))
        i;
  prev_sig = last i;
}

pub state_at_opening :
    (t : Text) (before : List Text)
    → depth (t ∷ before) ≡ suc (depth before)
    → is_keyword t ≡ false
    → nearest (t ∷ before) ≡ t
    → state_at (t ∷ before) ≡ record {
      in_from = in_from_clause (depth before) before;
      stack = in_from_clause (depth before) before ∷ outer_clauses (depth before) before;
      prev_sig = t;
    }
unfolding outer_clauses
state_at_opening t before deeper no_key last = λ i. record {
  in_from =
      (ap (λ d. in_from_clause d (t ∷ before)) deeper
          ∙ in_from_clause_kept (suc (depth before)) t before (omega arith) no_key)
        i;
  stack =
      (ap (λ d. outer_clauses d (t ∷ before)) deeper
          ∙ ap₂ ◌∷◌ (in_from_clause_kept (depth before) t before (omega arith) no_key)
              (outer_clauses_kept (depth before) t before (omega arith)))
        i;
  prev_sig = last i;
}

pub state_at_closing :
    (t : Text) (before : List Text)
    → depth (t ∷ before) ≡ depth before - 1
    → is_keyword t ≡ false
    → nearest (t ∷ before) ≡ t
    → let (b, stack) =
        pop (outer_clauses (depth before) before) (in_from_clause (depth before) before) in
      state_at (t ∷ before) ≡ record { in_from = b; stack = stack; prev_sig = t }
unfolding outer_clauses
state_at_closing t before back no_key last = by_depth (depth before) refl
  where
    zero_back : depth before ≡ 0 → depth before - 1 ≡ 0
    zero_back e = omega arith

    suc_back : (d : ℕ) → depth before ≡ suc d → depth before - 1 ≡ d
    suc_back d e = omega arith

    by_depth :
        (d : ℕ)
        → depth before ≡ d
        → let (b, stack) = pop (outer_clauses d before) (in_from_clause d before) in
          state_at (t ∷ before) ≡ record { in_from = b; stack = stack; prev_sig = t }
    by_depth zero e = λ i. record {
      in_from =
          (ap (λ d. in_from_clause d (t ∷ before)) (back ∙ zero_back e)
              ∙ in_from_clause_kept zero t before (omega arith) no_key
              ∙ ap (λ d. in_from_clause d before) e)
            i;
      stack = ap (λ d. outer_clauses d (t ∷ before)) (back ∙ zero_back e) i;
      prev_sig = last i;
    }
    by_depth (suc d) e = λ i. record {
      in_from =
          (ap (λ d. in_from_clause d (t ∷ before)) (back ∙ suc_back d e)
              ∙ in_from_clause_below d t before (omega arith))
            i;
      stack =
          (ap (λ d. outer_clauses d (t ∷ before)) (back ∙ suc_back d e)
              ∙ outer_clauses_kept d t before (omega arith))
            i;
      prev_sig = last i;
    }
