-- ===== src/Catalog/Clause.antt =====
-- Which words of a query are the names of tables, told from the tokens around a word alone: no state is
-- carried along. The tokens before a word are listed backwards, the nearest first.
use delta_forge_benchmarks.Common.{
  ℕ, suc, ◌-◌, Bool, true, false, ◌&&◌, ◌||◌, not, List, [], ◌∷◌, ◌++◌, leb, contains,
  if◌then◌else◌, ◌==◌, nat_eq, list_eq,
}
use delta_forge_benchmarks.Common.Text.{Text, codes}
use delta_forge_benchmarks.Catalog.Qualify.{
  Kind, literal, opening, closing, word_token, space, punctuation, kind, lower,
}

abbrev pub is_word : Kind → Bool
is_word literal = false
is_word opening = false
is_word closing = false
is_word word_token = true
is_word space = false
is_word punctuation = false

abbrev nested : Kind → ℕ → ℕ
nested literal n = n
nested opening n = suc n
nested closing n = n - 1
nested word_token n = n
nested space n = n
nested punctuation n = n

-- The number of parentheses that are open behind the tokens.
unfoldable pub depth : List Text → ℕ
depth [] = 0
depth (t ∷ before) = nested (kind t) (depth before)

abbrev pub begins_from : Text → Bool
begins_from t = lower t == codes "from" || lower t == codes "join"

-- The keywords behind which no table is named.
abbrev pub ends_from : Text → Bool
ends_from t =
    contains
      (codes "where"
        ∷ codes "group"
        ∷ codes "order"
        ∷ codes "having"
        ∷ codes "limit"
        ∷ codes "union"
        ∷ codes "select"
        ∷ codes "intersect"
        ∷ codes "except"
        ∷ codes "using"
        ∷ codes "qualify"
        ∷ codes "window"
        ∷ [])
      (lower t)

-- Whether the nearest keyword in this group of parentheses, or in one around it, begins a FROM. Keywords
-- deeper than `level`, in groups that are closed again, are passed over.
unfoldable pub in_from_clause : ℕ → List Text → Bool
unfolding depth lower
in_from_clause level [] = false
in_from_clause level (t ∷ before) =
    let outer = in_from_clause (if leb level (depth before) then level else depth before) before in
    if is_word (kind t) && ((begins_from t || ends_from t) && leb (depth before) level)
    then begins_from t
    else outer

abbrev is_blank : Kind → Bool
is_blank literal = false
is_blank opening = false
is_blank closing = false
is_blank word_token = false
is_blank space = true
is_blank punctuation = false

-- The nearest token that is no white space.
unfoldable pub nearest : List Text → Text
nearest [] = []
nearest (t ∷ before) = let further = nearest before in if is_blank (kind t) then further else t

abbrev pub is_dot_next : List Text → Bool
is_dot_next [] = false
is_dot_next (t ∷ rest) = t == codes "."

-- A listed table behind FROM, JOIN or a comma in a FROM clause, which is no keyword and no schema before a
-- dot.
unfoldable pub names_table : List Text → List Text → Text → List Text → Bool
unfolding depth lower in_from_clause nearest
names_table tables before t rest =
    is_word (kind t)
    && not (begins_from t)
    && not (ends_from t)
    && in_from_clause (depth before) before
    && contains tables t
    && (begins_from (nearest before) || lower (nearest before) == codes ",")
    && not (is_dot_next rest)

-- The tokens with each name of a table qualified.
unfoldable pub qualified : Text → Text → List Text → List Text → List Text → List Text
unfolding names_table
qualified zone schema tables before [] = []
qualified zone schema tables before (t ∷ rest) =
    let later = qualified zone schema tables (t ∷ before) rest in
    (if names_table tables before t rest then zone ++ codes "." ++ schema ++ codes "." ++ t else t)
    ∷ later
