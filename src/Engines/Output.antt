-- ===== src/Engines/Output.antt =====
-- What the adapter of engines/df_engine.py reads out of the output of the command line client:
-- `_scrape_dml_ms`, `_stats_num` and `_try_parse_cli_json`. Numbers are in thousandths; of Python's
-- `float` the plain decimals are read, with up to three digits behind the point.
pub mod Numbers
pub mod Separators
pub mod Payload
use delta_forge_benchmarks.Common.{
  ℕ, suc, ◌+◌, ◌-◌, ◌*◌, ◌/◌, Bool, true, false, Option, none, some, List, [], ◌∷◌, ◌++◌, keep, not,
  if◌then◌else◌, ◌==◌, nat_eq, list_eq,
}
use delta_forge_benchmarks.Common.Lines.{splitlines}
use delta_forge_benchmarks.Common.Text.{Text, codes, strip_prefix}
use delta_forge_benchmarks.Curve.Streams.{is_digit, number, starts_digit}
use delta_forge_benchmarks.Purge.{strip, lstrip}

-- `\((\d+)ms\)` at the start of a text.
abbrev closed_ms : Option (ℕ × Text) → Option ℕ
closed_ms none = none
closed_ms (some (n, s)) = elim (strip_prefix (codes "ms)") s) [ none ↦ none | some _ ↦ some n ]

abbrev or_else {ℓ} : {A : Type ℓ} → Option A → Option A → Option A
or_else none o = o
or_else (some a) o = some a

-- `_DML_MS_RE.search(line)`
unfoldable pub search_ms : Text → Option ℕ
unfolding number
search_ms [] = none
search_ms (c ∷ s) =
    let rest = search_ms s in if c == b'(' then or_else (closed_ms (number s)) rest else rest

unfoldable pub first_ms : List Text → Option ℕ
unfolding search_ms
first_ms [] = none
first_ms (l ∷ ls) = or_else (search_ms l) (first_ms ls)

abbrev thousand : Option ℕ → Option ℕ
thousand none = none
thousand (some n) = some (n * 1000)

unfoldable pub scrape_dml_ms : Text → Option ℕ
unfolding first_ms splitlines
scrape_dml_ms stdout = thousand (first_ms (splitlines stdout))

abbrev plus : ℕ → Option ℕ → Option ℕ
plus n none = none
plus n (some m) = some (n + m)

-- The digits behind a point, the first worth `unit`.
abbrev fraction : ℕ → Text → Option ℕ
fraction unit [] = some 0
fraction unit (c ∷ s) =
    let rest = plus ((c - 48) * unit) (fraction (unit / 10) s) in if is_digit c then rest else none

abbrev behind_point : ℕ → Text → Option ℕ
behind_point n [] = some (n * 1000)
behind_point n (c ∷ s) = if c == b'.' then plus (n * 1000) (fraction 100 s) else none

abbrev no_whole : Text → Option ℕ
no_whole [] = none
no_whole (c ∷ s) = if c == b'.' then (if starts_digit s then fraction 100 s else none) else none

abbrev pub decimal_of : Text → Option (ℕ × Text) → Option ℕ
decimal_of t none = no_whole t
decimal_of t (some (n, rest)) = behind_point n rest

-- `float(s)`
unfoldable pub parse_float : Text → Option ℕ
unfolding strip number
parse_float s = let t = strip s in decimal_of t (number t)

-- `val in (None, "None")`
abbrev pub known : Option Text → Option Text
known none = none
known (some v) = if v == codes "None" then none else some v

abbrev pub bind {ℓ κ} : {A : Type ℓ} {B : Type κ} → Option A → (A → Option B) → Option B
bind none f = none
bind (some a) f = f a

-- `s.replace(",", "")`
abbrev pub without_commas : Text → Text
without_commas s = keep (λ c. not (c == b',')) s

unfoldable pub stats_num : Option Text → Option ℕ
unfolding parse_float
stats_num val = bind (known val) (λ v. parse_float (without_commas v))

abbrev pub starts_brace : Text → Bool
starts_brace [] = false
starts_brace (c ∷ s) = c == b'{'

-- The scan of one line: the depth behind it, or none where a brace closes the object.
unfoldable pub scan_braces : ℕ → Text → Option ℕ
scan_braces depth [] = some depth
scan_braces depth (c ∷ s) =
    let opened = scan_braces (suc depth) s in
    let closed = scan_braces (depth - 1) s in
    let other = scan_braces depth s in
    if c == b'{'
    then opened
    else if c == b'}'
    then (if depth - 1 == 0 then none else closed)
    else other

abbrev pub more_lines : Text → Option (List Text) → Option (List Text)
more_lines l none = none
more_lines l (some ls) = some (l ∷ ls)

-- The lines up to the one in which the object is closed.
unfoldable pub object_lines : ℕ → List Text → Option (List Text)
unfolding scan_braces
object_lines depth [] = none
object_lines depth (l ∷ ls) = elim (scan_braces depth l) [
  | none ↦ some (l ∷ [])
  | some depth' ↦ more_lines l (object_lines depth' ls)
]

-- `"\n".join(lines)`
abbrev pub join_lines : List Text → Text
join_lines [] = []
join_lines (l ∷ []) = l
join_lines (l ∷ k ∷ ls) = l ++ 10 ∷ join_lines (k ∷ ls)

-- `json.loads` is given: none is its `JSONDecodeError`.
module _ {J : Type 0} (loads : Text → Option J) where
  -- The slow path: from the first line that begins with a brace.
  unfoldable pub slow_path : List Text → Option J
  unfolding object_lines
  slow_path [] = none
  slow_path (l ∷ ls) =
      let rest = slow_path ls in
      if starts_brace l
      then bind (object_lines 0 (l ∷ ls)) (λ buf. loads (join_lines buf))
      else rest

  abbrev fast_path : Text → Option J
  fast_path s = if starts_brace s then loads s else none

  unfoldable pub try_parse_cli_json : Text → Option J
  unfolding slow_path lstrip splitlines
  try_parse_cli_json [] = none
  try_parse_cli_json (c ∷ s) =
      let stdout = c ∷ s in or_else (fast_path (lstrip stdout)) (slow_path (splitlines stdout))
