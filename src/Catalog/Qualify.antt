-- ===== src/Catalog/Qualify.antt =====
-- `df_register_setup` and `df_qualify` (workloads/_df_catalog.py).
use delta_forge_benchmarks.Common.{
  ℕ, ◌+◌, Bool, true, false, ◌&&◌, ◌||◌, not, List, [], ◌∷◌, ◌++◌, map, leb, if◌then◌else◌, ◌==◌,
  contains, nat_eq, list_eq,
}
use delta_forge_benchmarks.Common.Text.{Text, codes}
use delta_forge_benchmarks.Catalog.Token.{quote, is_letter, tokens, join}

-- `";\n".join(parts)`
unfoldable pub join_statements : List Text → Text
join_statements [] = []
join_statements (p ∷ []) = p
join_statements (p ∷ q ∷ ps) = p ++ codes ";\n" ++ join_statements (q ∷ ps)

unfoldable pub register : Text → Text → Text → Text
register zone schema t =
    codes "REGISTER DELTA TABLE "
    ++ zone
    ++ codes "."
    ++ schema
    ++ codes "."
    ++ t
    ++ codes " LOCATION '"
    ++ t
    ++ codes "'"

unfoldable pub setup_parts : Text → Text → Text → List Text → List Text
unfolding register
setup_parts zone schema delta_root tables =
    (codes "CREATE ZONE IF NOT EXISTS "
      ++ zone
      ++ codes " STORAGE_ROOT = '"
      ++ delta_root
      ++ codes "'")
    ∷ (codes "CREATE SCHEMA IF NOT EXISTS " ++ zone ++ codes "." ++ schema)
    ∷ map (register zone schema) tables

unfoldable pub df_register_setup : Text → Text → Text → List Text → Text
unfolding setup_parts join_statements
df_register_setup zone schema delta_root tables =
    join_statements (setup_parts zone schema delta_root tables)

-- `t.lower()`
unfoldable pub lower : Text → Text
lower = map (λ c. if leb b'A' c && leb c b'Z' then c + 32 else c)

abbrev pub from_on : List Text
from_on = codes "from" ∷ codes "join" ∷ []

abbrev pub clause_off : List Text
clause_off = map codes (
    "where" ∷ "group" ∷ "order" ∷ "having" ∷ "limit" ∷ "union" ∷ "select" ∷ "intersect" ∷ "except"
    ∷ "using" ∷ "qualify" ∷ "window" ∷ [])

-- `low in _FROM_ON`, `low in _CLAUSE_OFF`
unfoldable pub turns_on : Text → Bool
unfolding lower
turns_on t = contains from_on (lower t)

unfoldable pub turns_off : Text → Bool
unfolding lower
turns_off t = contains clause_off (lower t)

-- `prev_sig.lower() in ("from", "join", ",")`
unfoldable pub before_table : Text → Bool
unfolding lower
before_table t = contains (codes "from" ∷ codes "join" ∷ codes "," ∷ []) (lower t)

pub record Scan : Type 0 where
  pub in_from : Bool
  pub stack : List Bool
  pub prev_sig : Text

pub data Kind : Type 0 where
  literal opening closing word_token space punctuation : Kind

-- `str.isspace` on one ASCII character
abbrev pub is_space : ℕ → Bool
is_space c = (leb 9 c && leb c 13) || (leb 28 c && leb c 32)

-- The branches of the loop, by the token alone. A token of several characters is a literal or a word.
unfoldable pub kind : Text → Kind
unfolding is_letter
kind [] = space
kind (c ∷ cs) =
    if c == quote
    then Kind.literal
    else if c ∷ cs == codes "("
    then opening
    else if c ∷ cs == codes ")"
    then closing
    else if is_letter c
    then word_token
    else if is_space c
    then space
    else punctuation

abbrev pub pop : List Bool → Bool → Bool × List Bool
pop [] current = (current, [])
pop (b ∷ stack) current = (b, stack)

-- `i + 1 >= n or toks[i + 1] != "."`
unfoldable pub no_dot : List Text → Bool
no_dot [] = true
no_dot (t ∷ rest) = not (t == codes ".")

-- `t in tableset`
unfoldable pub is_table : List Text → Text → Bool
is_table tables t = contains tables t

unfoldable pub prefix : Text → Text → Text
prefix zone schema = zone ++ codes "." ++ schema ++ codes "."

module _ (zone schema : Text) (tables : List Text) where
  -- The condition under which a word is qualified.
  unfoldable pub is_reference : Scan → Text → List Text → Bool
  is_reference st t rest =
      st.in_from && is_table tables t && before_table st.prev_sig && no_dot rest

  -- A word token: the new state, and what is put out.
  unfoldable pub step_word : Scan → Text → List Text → Scan × Text
  unfolding is_reference
  step_word st t rest =
      if turns_on t
      then (record st { in_from = true; prev_sig = t }, t)
      else if turns_off t
      then (record st { in_from = false; prev_sig = t }, t)
      else (
        record st { prev_sig = t },
        if is_reference st t rest then prefix zone schema ++ t else t,
      )

  -- One round of the loop; `rest` is `toks[i + 1:]`.
  unfoldable pub step : Scan → Text → List Text → Scan × Text
  unfolding step_word
  step st t rest = elim (kind t) [
    | literal ↦ (record st { prev_sig = t }, t)
    | opening ↦ (record st { stack = st.in_from ∷ st.stack; prev_sig = t }, t)
    | closing ↦
        let (b, stack) = pop st.stack st.in_from in
        (record { in_from = b; stack = stack; prev_sig = t }, t)
    | word_token ↦ step_word st t rest
    | space ↦ (st, t)
    | punctuation ↦ (record st { prev_sig = t }, t)
  ]

  -- The loop over `toks[i:]`, with what it puts out.
  unfoldable pub scan : Scan → List Text → List Text
  unfolding step
  scan st [] = []
  scan st (t ∷ rest) = let (st', o) = step st t rest in o ∷ scan st' rest

abbrev pub start : Scan
start = record { in_from = false; stack = []; prev_sig = [] }

unfoldable pub df_qualify : Text → List Text → Text → Text → Text
df_qualify sql tables zone schema = join (scan zone schema tables start (tokens sql))
