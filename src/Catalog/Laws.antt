-- ===== src/Catalog/Laws.antt =====
-- What `df_qualify` changes in a query: the scan against the description of Catalog/Clause.
use delta_forge_benchmarks.Common.{
  ◌≡◌, refl, sym, ap, ap₂, ◌∙◌, Bool, true, false, ◌||◌, List, [], ◌∷◌, ◌++◌, if◌then◌else◌, arith,
  Bool-cases, inl, inr,
}
use delta_forge_benchmarks.Common.Text.{Text, codes}
use delta_forge_benchmarks.Catalog.Token.{tokens, join, join-tokens}
use delta_forge_benchmarks.Catalog.Clause.{
  is_word, depth, begins_from, ends_from, in_from_clause, nearest, names_table, qualified,
}
use delta_forge_benchmarks.Catalog.Qualify.{
  Scan, Kind, literal, opening, closing, word_token, space, punctuation, kind, lower, turns_on,
  turns_off, before_table, is_table, no_dot, prefix, is_reference, step_word, step, scan,
  df_qualify, pop,
}
use delta_forge_benchmarks.Catalog.Stack.{
  outer_clauses, is_keyword, state_at, state_at_plain, state_at_keyword, state_at_opening,
  state_at_closing,
}

module _ (zone schema : Text) (tables : List Text) where
  -- What is put out for a token.
  abbrev written : List Text → Text → List Text → Text
  written before t rest =
      if names_table tables before t rest then zone ++ codes "." ++ schema ++ codes "." ++ t else t

  written_other :
      (before : List Text) (t : Text) (rest : List Text)
      → is_word (kind t) ≡ false
      → written before t rest ≡ t
  unfolding names_table
  written_other before t rest h = ground arith

  not_keyword : (t : Text) → is_word (kind t) ≡ false → is_keyword t ≡ false
  not_keyword t h = ground arith

  Steps : List Text → Text → List Text → Type 0
  Steps before t rest =
      step zone schema tables (state_at before) t rest
      ≡ (state_at (t ∷ before), written before t rest)

  step_other :
      (before : List Text) (t : Text) (rest : List Text) (st : Scan)
      → is_word (kind t) ≡ false
      → step zone schema tables (state_at before) t rest ≡ (st, t)
      → state_at (t ∷ before) ≡ st
      → Steps before t rest
  unfolding Steps
  step_other before t rest st h s e =
      s ∙ ap₂ (λ a b. (a, b)) (sym e) (sym (written_other before t rest h))

  step_punctuation :
      (before : List Text) (t : Text) (rest : List Text)
      → kind t ≡ punctuation
      → Steps before t rest
  unfolding depth nearest step
  step_punctuation before t rest h =
      step_other before t rest (record (state_at before) { prev_sig = t }) (ap is_word h)
        (rw (h, step) refl)
        (state_at_plain t before t (rw h refl) (not_keyword t (ap is_word h)) (rw h refl))

  step_literal :
      (before : List Text) (t : Text) (rest : List Text) → kind t ≡ literal → Steps before t rest
  unfolding depth nearest step
  step_literal before t rest h =
      step_other before t rest (record (state_at before) { prev_sig = t }) (ap is_word h)
        (rw (h, step) refl)
        (state_at_plain t before t (rw h refl) (not_keyword t (ap is_word h)) (rw h refl))

  step_space :
      (before : List Text) (t : Text) (rest : List Text) → kind t ≡ space → Steps before t rest
  unfolding depth nearest step
  step_space before t rest h =
      step_other before t rest (state_at before) (ap is_word h) (rw (h, step) refl) (
        state_at_plain t before (nearest before) (rw h refl) (not_keyword t (ap is_word h))
          (rw h refl))

  step_opening :
      (before : List Text) (t : Text) (rest : List Text) → kind t ≡ opening → Steps before t rest
  unfolding depth nearest step
  step_opening before t rest h =
      step_other before t rest
        (record {
          in_from = in_from_clause (depth before) before;
          stack = in_from_clause (depth before) before ∷ outer_clauses (depth before) before;
          prev_sig = t;
        })
        (ap is_word h) (rw (h, step) refl)
        (state_at_opening t before (rw h refl) (not_keyword t (ap is_word h)) (rw h refl))

  step_closing :
      (before : List Text) (t : Text) (rest : List Text) → kind t ≡ closing → Steps before t rest
  unfolding depth nearest step
  step_closing before t rest h =
      let (b, stack) =
        pop (outer_clauses (depth before) before) (in_from_clause (depth before) before) in
      step_other before t rest (record { in_from = b; stack = stack; prev_sig = t }) (ap is_word h)
        (rw (h, step) refl)
        (state_at_closing t before (rw h refl) (not_keyword t (ap is_word h)) (rw h refl))

  turns_on-begins_from : (t : Text) → turns_on t ≡ begins_from t
  unfolding turns_on lower
  turns_on-begins_from t = ground arith

  turns_off-ends_from : (t : Text) → turns_off t ≡ ends_from t
  unfolding turns_off lower
  turns_off-ends_from t = refl

  written_keyword :
      (before : List Text) (t : Text) (rest : List Text)
      → (begins_from t || ends_from t) ≡ true
      → written before t rest ≡ t
  unfolding names_table
  written_keyword before t rest h = ground arith

  names_table-is_reference :
      (before : List Text) (t : Text) (rest : List Text)
      → kind t ≡ word_token
      → begins_from t ≡ false
      → ends_from t ≡ false
      → names_table tables before t rest ≡ is_reference zone schema tables (state_at before) t rest
  unfolding names_table is_reference before_table no_dot is_table lower
  names_table-is_reference before t rest h a b = ground arith

  step-step_word :
      (st : Scan) (t : Text) (rest : List Text)
      → kind t ≡ word_token
      → step zone schema tables st t rest ≡ step_word zone schema tables st t rest
  unfolding step step_word
  step-step_word st t rest h = rw (h, step) refl

  step_keyword :
      (before : List Text) (t : Text) (rest : List Text) (b : Bool)
      → kind t ≡ word_token
      → (begins_from t || ends_from t) ≡ true
      → begins_from t ≡ b
      → step_word zone schema tables (state_at before) t rest
        ≡ (record (state_at before) { in_from = b; prev_sig = t }, t)
      → Steps before t rest
  unfolding depth nearest Steps
  step_keyword before t rest b h key begins s =
      step-step_word (state_at before) t rest h
      ∙ s
      ∙ ap₂ (λ a b. (a, b))
          (sym (state_at_keyword t before b (rw h refl) (rw h key) begins (rw h refl)))
          (sym (written_keyword before t rest key))

  step_name :
      (before : List Text) (t : Text) (rest : List Text)
      → kind t ≡ word_token
      → begins_from t ≡ false
      → ends_from t ≡ false
      → Steps before t rest
  unfolding depth nearest Steps step_word prefix
  step_name before t rest h begins ends =
      let no_key : is_keyword t ≡ false = rw h (ground arith) in
      step-step_word (state_at before) t rest h
      ∙ rw (turns_on-begins_from t, begins, turns_off-ends_from t, ends) refl
      ∙ ap₂ (λ a b. (a, b)) (sym (state_at_plain t before t (rw h refl) no_key (rw h refl)))
          (out (is_reference zone schema tables (state_at before) t rest) _
            (names_table-is_reference before t rest h begins ends))
    where
      out :
          (b c : Bool)
          → c ≡ b
          → (if b then prefix zone schema ++ t else t)
            ≡ (if c then zone ++ codes "." ++ schema ++ codes "." ++ t else t)
      out true true e = refl
      out true false e = cc
      out false true e = cc
      out false false e = refl

  step_word_token :
      (before : List Text) (t : Text) (rest : List Text) → kind t ≡ word_token → Steps before t rest
  unfolding step_word
  step_word_token before t rest h = elim (Bool-cases (begins_from t)) [
    | inl begins ↦
        step_keyword before t rest true h (ground (arith, begins)) begins
          (rw (turns_on-begins_from t, begins) refl)
    | inr other ↦ elim (Bool-cases (ends_from t)) [
      | inl ends ↦
          step_keyword before t rest false h (ground (arith, ends)) other
            (rw (turns_on-begins_from t, other, turns_off-ends_from t, ends) refl)
      | inr none ↦ step_name before t rest h other none
    ]
  ]

  step-state_at : (before : List Text) (t : Text) (rest : List Text) → Steps before t rest
  step-state_at before t rest = by_kind (kind t) refl
    where
      by_kind : (k : Kind) → kind t ≡ k → Steps before t rest
      by_kind literal h = step_literal before t rest h
      by_kind opening h = step_opening before t rest h
      by_kind closing h = step_closing before t rest h
      by_kind word_token h = step_word_token before t rest h
      by_kind space h = step_space before t rest h
      by_kind punctuation h = step_punctuation before t rest h

  scan-qualified :
      (before ts : List Text)
      → scan zone schema tables (state_at before) ts ≡ qualified zone schema tables before ts
  unfolding scan qualified Steps
  scan-qualified before [] = refl
  scan-qualified before (t ∷ rest) =
      ap (λ (p : Scan × Text). p.1 ∷ scan zone schema tables p.0 rest) (step-state_at before t rest)
      ∙ ap (λ l. written before t rest ∷ l) (scan-qualified (t ∷ before) rest)

-- A query is cut into tokens that make it up again. A word is qualified with the zone and the schema exactly if
-- it is a listed table, stands right behind FROM, JOIN or a comma, the nearest keyword in its parentheses or in
-- those around it (closed groups passed over) begins a FROM, no dot follows, and it is itself no keyword; all
-- other tokens stay as they are.
pub df_qualify-qualified :
    (sql : Text) (tables : List Text) (zone schema : Text)
    → (join (tokens sql) ≡ sql)
      × (df_qualify sql tables zone schema ≡ join (qualified zone schema tables [] (tokens sql)))
unfolding df_qualify depth in_from_clause nearest outer_clauses
df_qualify-qualified sql tables zone schema =
    (join-tokens sql, ap join (scan-qualified zone schema tables [] (tokens sql)))
