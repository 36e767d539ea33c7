-- ===== src/Catalog/Token.antt =====
-- The tokens of `df_qualify`: the regular expression `_TOKEN` of workloads/_df_catalog.py on texts
-- of ASCII characters. A token is a quoted literal, a word, or one other character.
use delta_forge_benchmarks.Common.{
  ℕ, zero, suc, ◌≤◌, ◌≡◌, refl, ap, Bool, ◌&&◌, ◌||◌, Option, none, some, List, [], ◌∷◌, ◌++◌,
  arith, leb, if◌then◌else◌, ◌==◌, nat_eq, length, length-append, if_elim,
}
use delta_forge_benchmarks.Common.Text.{Text}

abbrev pub quote : ℕ
quote = 39

-- [A-Za-z_]
unfoldable pub is_letter : ℕ → Bool
is_letter c = (leb b'A' c && leb c b'Z') || (leb b'a' c && leb c b'z') || c == b'_'

-- [A-Za-z0-9_]
unfoldable pub is_word : ℕ → Bool
unfolding is_letter
is_word c = is_letter c || (leb b'0' c && leb c b'9')

abbrev extend : ℕ → Option (Text × Text) → Option (Text × Text)
extend c none = none
extend c (some (l, r)) = some (c ∷ l, r)

abbrev close : ℕ → ℕ → Text → Option (Text × Text) → Option (Text × Text)
close c d s none = some (c ∷ [], d ∷ s)
close c d s (some (l, r)) = some (c ∷ d ∷ l, r)

-- What follows an opening quote: the literal up to its closing quote, and the rest. A doubled quote
-- goes on if a closing quote comes later, as the backtracking match does.
unfoldable pub quoted : Text → Option (Text × Text)
quoted [] = none
quoted (c ∷ []) = if c == quote then some (c ∷ [], []) else none
quoted (c ∷ d ∷ s) =
    let skip = close c d s (quoted s) in
    let rest = extend c (quoted (d ∷ s)) in
    if c == quote then (if d == quote then skip else some (c ∷ [], d ∷ s)) else rest

unfoldable pub word : Text → Text × Text
unfolding is_word
word [] = ([], [])
word (c ∷ s) = let (w, r) = word s in if is_word c then (c ∷ w, r) else ([], c ∷ s)

abbrev literal_token : ℕ → Text → Option (Text × Text) → Text × Text
literal_token c s none = (c ∷ [], s)
literal_token c s (some (l, r)) = (c ∷ l, r)

-- The first token of `c ∷ s` and what is left.
unfoldable pub next_token : ℕ → Text → Text × Text
unfolding quoted word is_letter
next_token c s =
    if c == quote
    then literal_token c s (quoted s)
    else if is_letter c
    then (c ∷ (word s).0, (word s).1)
    else (c ∷ [], s)

-- `[m.group(0) for m in _TOKEN.finditer(sql)]`. Each token has a character, so the length of the text
-- is fuel enough.
tokens_fuel : ℕ → Text → List Text
tokens_fuel zero s = []
tokens_fuel (suc f) [] = []
tokens_fuel (suc f) (c ∷ s) = let (t, r) = next_token c s in t ∷ tokens_fuel f r

unfoldable pub tokens : Text → List Text
unfolding tokens_fuel next_token
tokens s = tokens_fuel (length s) s

-- `"".join(toks)`
unfoldable pub join : List Text → Text
join [] = []
join (t ∷ ts) = t ++ join ts

abbrev Splits : Text → Text × Text → Type 0
Splits s (t, r) = t ++ r ≡ s

abbrev SplitsIf : Text → Option (Text × Text) → Type 0
SplitsIf s none = Unit
SplitsIf s (some p) = Splits s p

SplitsIf-extend :
    (c : ℕ) (s : Text) (o : Option (Text × Text)) → SplitsIf s o → SplitsIf (c ∷ s) (extend c o)
SplitsIf-extend c s none h = tt
SplitsIf-extend c s (some p) h = ap (◌∷◌ c) h

SplitsIf-close :
    (c d : ℕ) (s : Text) (o : Option (Text × Text))
    → SplitsIf s o
    → SplitsIf (c ∷ d ∷ s) (close c d s o)
SplitsIf-close c d s none h = refl
SplitsIf-close c d s (some p) h = ap (λ t. c ∷ d ∷ t) h

quoted-SplitsIf : (s : Text) → SplitsIf s (quoted s)
unfolding quoted
quoted-SplitsIf [] = tt
quoted-SplitsIf (c ∷ []) = if_elim (SplitsIf (c ∷ [])) (c == quote) _ _ (λ _. refl) (λ _. tt)
quoted-SplitsIf (c ∷ d ∷ s) =
    if_elim (SplitsIf (c ∷ d ∷ s)) (c == quote) _ _
      (λ _.
        if_elim (SplitsIf (c ∷ d ∷ s)) (d == quote) _ _
          (λ _. SplitsIf-close c d s (quoted s) (quoted-SplitsIf s)) (λ _. refl))
      (λ _. SplitsIf-extend c (d ∷ s) (quoted (d ∷ s)) (quoted-SplitsIf (d ∷ s)))

word-Splits : (s : Text) → Splits s (word s)
unfolding word
word-Splits [] = refl
word-Splits (c ∷ s) =
    if_elim (Splits (c ∷ s)) (is_word c) _ _ (λ _. ap (◌∷◌ c) (word-Splits s)) (λ _. refl)

literal_token-Splits :
    (c : ℕ) (s : Text) (o : Option (Text × Text))
    → SplitsIf s o
    → Splits (c ∷ s) (literal_token c s o)
literal_token-Splits c s none h = refl
literal_token-Splits c s (some p) h = ap (◌∷◌ c) h

next_token-Splits : (c : ℕ) (s : Text) → Splits (c ∷ s) (next_token c s)
unfolding next_token
next_token-Splits c s =
    if_elim (Splits (c ∷ s)) (c == quote) _ _
      (λ _. literal_token-Splits c s (quoted s) (quoted-SplitsIf s))
      (λ _.
        if_elim (Splits (c ∷ s)) (is_letter c) _ _ (λ _. ap (◌∷◌ c) (word-Splits s)) (λ _. refl))

abbrev Begins : ℕ → Text × Text → Type 0
Begins c (t, r) = (u : Text) × (t ≡ c ∷ u)

literal_token-Begins :
    (c : ℕ) (s : Text) (o : Option (Text × Text)) → Begins c (literal_token c s o)
literal_token-Begins c s none = ([], refl)
literal_token-Begins c s (some (l, r)) = (l, refl)

next_token-Begins : (c : ℕ) (s : Text) → Begins c (next_token c s)
unfolding next_token
next_token-Begins c s =
    if_elim (Begins c) (c == quote) _ _ (λ _. literal_token-Begins c s (quoted s))
      (λ _. if_elim (Begins c) (is_letter c) _ _ (λ _. ((word s).0, refl)) (λ _. ([], refl)))

-- A token has at least one character.
next_token-shorter : (c : ℕ) (s : Text) → length (next_token c s).1 ≤ length s
next_token-shorter c s =
    let (u, e) = next_token-Begins c s in
    omega (
      arith,
      ap length (next_token-Splits c s),
      ap length e,
      length-append {0} (next_token c s).0 (next_token c s).1,
    )

-- With fuel for its length, the tokens of a text, joined, are the text.
join-tokens_fuel : (f : ℕ) (s : Text) → length s ≤ f → join (tokens_fuel f s) ≡ s
unfolding join tokens_fuel
join-tokens_fuel zero [] h = refl
join-tokens_fuel zero (c ∷ s) h = absurd (omega arith)
join-tokens_fuel (suc f) [] h = refl
join-tokens_fuel (suc f) (c ∷ s) h =
    rw (join-tokens_fuel f (next_token c s).1 (omega (arith, next_token-shorter c s)))
      (next_token-Splits c s)

-- The tokens of a text, joined, are the text: no character is lost.
pub join-tokens : (s : Text) → join (tokens s) ≡ s
unfolding tokens
join-tokens s = join-tokens_fuel (length s) s (omega arith)
