-- ===== src/Engines/Df.antt =====
-- `_split_sql_statements` of engines/df_engine.py: the script of a step is cut at each semicolon that
-- white space with a line break, or the end of the text, follows.
pub mod Walk
pub mod Step
pub mod Start
pub mod Engine
pub mod Waiting
pub mod Reported
pub mod Measured
pub mod Scripts
pub mod Cypher
pub mod Unhashed
pub mod Laws
use delta_forge_benchmarks.Common.{
  ℕ, zero, suc, Bool, true, false, not, ◌&&◌, ◌||◌, Option, none, some, List, [], ◌∷◌, ◌++◌, map,
  keep, any, leb, if◌then◌else◌, ◌==◌, nat_eq,
}
use delta_forge_benchmarks.Common.Text.{Text, codes, strip_prefix}
use delta_forge_benchmarks.Common.Lines.{splitlines}
use delta_forge_benchmarks.Purge.{strip, is_white}

abbrev longer : Bool → Option ℕ → Option ℕ
longer at_break (some k) = some (suc k)
longer true none = some 1
longer false none = none

-- How much `\s*(?:\n|$)` matches at the start of a text: to its end, or to the last line break of the
-- white space.
unfoldable pub break_length : Text → Option ℕ
break_length [] = some 0
break_length (c ∷ s) =
    let rest = longer (c == 10) (break_length s) in if is_white c then rest else none

abbrev pub with_char : ℕ → Text × List Text → Text × List Text
with_char c (w, ws) = (c ∷ w, ws)

abbrev pub new_chunk : Text × List Text → Text × List Text
new_chunk (w, ws) = ([], w ∷ ws)

-- The first chunk of a text and the others. The number counts the characters of a match that are still to
-- be passed over.
unfoldable pub chunks_from : ℕ → Text → Text × List Text
unfolding break_length
chunks_from n [] = ([], [])
chunks_from (suc n) (c ∷ s) = chunks_from n s
chunks_from zero (c ∷ s) =
    let on = with_char c (chunks_from zero s) in
    if c == b';'
    then (elim (break_length s) [ none ↦ on | some k ↦ new_chunk (chunks_from k s) ])
    else on

abbrev is_code : Text → Bool
is_code [] = false
is_code (c ∷ s) = elim (strip_prefix (codes "--") (c ∷ s)) [ none ↦ true | some _ ↦ false ]

-- A line that is neither blank nor a comment.
unfoldable pub has_code : Text → Bool
unfolding strip splitlines
has_code chunk = any (λ l. is_code (strip l)) (splitlines chunk)

abbrev pub all_chunks : Text × List Text → List Text
all_chunks (w, ws) = w ∷ ws

unfoldable pub split_sql_statements : Text → List Text
unfolding chunks_from
split_sql_statements text = keep has_code (map strip (all_chunks (chunks_from zero text)))
