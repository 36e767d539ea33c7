-- ===== src/Engines/Df/Laws.antt =====
-- Lemmas on `_split_sql_statements` of engines/df_engine.py.
use delta_forge_benchmarks.Common.{
  ℕ, zero, ◌≡◌, refl, sym, ap, ◌∙◌, Bool, true, false, not, ◌&&◌, ◌||◌, Option, none, List, [], ◌∷◌,
  ◌++◌, map, keep, all, contains, if◌then◌else◌, ◌==◌, nat_eq, list_eq, ==-sound, &&-split, arith,
}
use mathlib.Core.Bool.{false≢true}
use mathlib.Core.List.{append_assoc, append-nil}
use delta_forge_benchmarks.Common.Text.{Text, codes}
use delta_forge_benchmarks.Purge.{strip, is_white}
use delta_forge_benchmarks.Catalog.Qualify.{join_statements}
use delta_forge_benchmarks.Engines.Df.{
  break_length, with_char, new_chunk, chunks_from, has_code, all_chunks, split_sql_statements,
}

-- The text begins with a character that is not white space.
abbrev pub starts_solid : Text → Bool
starts_solid [] = false
starts_solid (c ∷ s) = not (is_white c)

-- A statement: no semicolon, no white space around it, and not only comments.
abbrev pub is_statement : Text → Bool
is_statement p = not (contains p b';') && starts_solid p && strip p == p && has_code p

-- A text put before the first chunk.
abbrev before : Text → Text × List Text → Text × List Text
before p (w, ws) = (p ++ w, ws)

or_false : (a b : Bool) → (a || b) ≡ false → (a ≡ false) × (b ≡ false)
or_false a b h = ground arith

differ_sym : (a b : ℕ) → (a == b) ≡ false → (b == a) ≡ false
differ_sym a b h = ground arith

chunks_from-append :
    (p rest : Text)
    → contains p b';' ≡ false
    → chunks_from zero (p ++ rest) ≡ before p (chunks_from zero rest)
unfolding chunks_from
chunks_from-append [] rest h = refl
chunks_from-append (c ∷ p) rest h =
    let (now, later) = or_false (b';' == c) (contains p b';') h in
    rw (differ_sym b';' c now) (ap (with_char c) (chunks_from-append p rest later))

break_length-none : (q : Text) → starts_solid q ≡ true → break_length q ≡ none
unfolding break_length
break_length-none [] h = elim (false≢true h) [ ]
break_length-none (c ∷ q) h = not_white (is_white c) _ h
  where
    not_white : (b : Bool) (o : Option ℕ) → not b ≡ true → (if b then o else none) ≡ none
    not_white true o h = elim (false≢true h) [ ]
    not_white false o h = refl

chunks_from_separator :
    (q : Text)
    → starts_solid q ≡ true
    → chunks_from zero (b';' ∷ 10 ∷ q) ≡ new_chunk (chunks_from zero q)
unfolding chunks_from break_length nat_eq
chunks_from_separator q h = rw (break_length-none q h) refl

solid-join :
    (p : Text) (ps : List Text)
    → starts_solid p ≡ true
    → starts_solid (join_statements (p ∷ ps)) ≡ true
unfolding join_statements
solid-join [] ps h = elim (false≢true h) [ ]
solid-join (c ∷ p) [] h = h
solid-join (c ∷ p) (q ∷ ps) h = h

not-true : (b : Bool) → not b ≡ true → b ≡ false
not-true b h = ground arith

-- The parts of `is_statement`.
statement_parts :
    (p : Text)
    → is_statement p ≡ true
    → (contains p b';' ≡ false) × (starts_solid p ≡ true) × (strip p ≡ p) × (has_code p ≡ true)
statement_parts p h =
    let (r, d) =
      &&-split (not (contains p b';') && starts_solid p && strip p == p) (has_code p) h in
    let (t, c) = &&-split (not (contains p b';') && starts_solid p) (strip p == p) r in
    let (a, b) = &&-split (not (contains p b';')) (starts_solid p) t in
    (not-true (contains p b';') a, b, ==-sound (strip p) p c, d)

chunks_from-join :
    (p : Text) (ps : List Text)
    → all is_statement (p ∷ ps) ≡ true
    → chunks_from zero (join_statements (p ∷ ps)) ≡ (p, ps)
unfolding join_statements chunks_from
chunks_from-join p [] h =
    let (now, _) = &&-split (is_statement p) true h in
    let (plain, _, _, _) = statement_parts p now in
    ap (chunks_from zero) (sym (append-nil p))
    ∙ chunks_from-append p [] plain
    ∙ ap (λ w. (w, [])) (append-nil p)
chunks_from-join p (q ∷ ps) h =
    let (now, later) = &&-split (is_statement p) (all is_statement (q ∷ ps)) h in
    let (first, _) = &&-split (is_statement q) (all is_statement ps) later in
    let (plain, _, _, _) = statement_parts p now in
    let (_, solid, _, _) = statement_parts q first in
    let more = join_statements (q ∷ ps) in
    ap (chunks_from zero) (append_assoc p (codes ";\n") more)
    ∙ chunks_from-append p (codes ";\n" ++ more) plain
    ∙ ap (before p) (
        chunks_from_separator more (solid-join q ps solid)
        ∙ ap new_chunk (chunks_from-join q ps later))
    ∙ ap (λ w. (w, q ∷ ps)) (append-nil p)

statements_kept : (ps : List Text) → all is_statement ps ≡ true → keep has_code (map strip ps) ≡ ps
statements_kept [] h = refl
statements_kept (p ∷ ps) h =
    let (now, later) = &&-split (is_statement p) (all is_statement ps) h in
    let (_, _, same, code) = statement_parts p now in
    rw (same, code) (ap (λ l. p ∷ l) (statements_kept ps later))

-- A script joined from statements, each without a semicolon, with no white space around it and not
-- only of comments, is cut into exactly these statements, in their order.
pub split_sql_statements-join_statements :
    (p : Text) (ps : List Text)
    → all is_statement (p ∷ ps) ≡ true
    → split_sql_statements (join_statements (p ∷ ps)) ≡ p ∷ ps
unfolding split_sql_statements
split_sql_statements-join_statements p ps h =
    ap (λ c. keep has_code (map strip (all_chunks c))) (chunks_from-join p ps h)
    ∙ statements_kept (p ∷ ps) h
