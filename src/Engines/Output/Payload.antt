-- ===== src/Engines/Output/Payload.antt =====
-- Where `_try_parse_cli_json` of engines/df_engine.py finds the payload.
use delta_forge_benchmarks.Common.{
  ℕ, suc, ◌-◌, ◌≡◌, ◌≢◌, refl, sym, ap, ◌∙◌, Bool, true, false, not, Option, none, some, List, [],
  ◌∷◌, ◌++◌, all, &&-split, if◌then◌else◌, ◌==◌, nat_eq, arith,
}
use mathlib.Core.Option.{some-injective}
use delta_forge_benchmarks.Common.Lines.{splitlines}
use delta_forge_benchmarks.Common.Text.{Text}
use delta_forge_benchmarks.Engines.Output.{
  starts_brace, scan_braces, object_lines, more_lines, join_lines, slow_path, bind,
  try_parse_cli_json,
}
use delta_forge_benchmarks.Purge.{lstrip}

-- Texts whose braces stand in pairs.
pub data Balanced : Text → Type 0 where
  empty : Balanced []
  char :
      (c : ℕ) (s : Text) → (c == b'{') ≡ false → (c == b'}') ≡ false → Balanced s → Balanced (c ∷ s)
  braces : (s t : Text) → Balanced s → Balanced t → Balanced (b'{' ∷ (s ++ b'}' ∷ t))

-- Braces around a balanced text
abbrev pub IsObject : Text → Type 0
IsObject t = (body : Text) × Balanced body × (t ≡ b'{' ∷ (body ++ b'}' ∷ []))

scan_braces-append :
    (d e : ℕ) (s t : Text) → scan_braces d s ≡ some e → scan_braces d (s ++ t) ≡ scan_braces e t
unfolding scan_braces
scan_braces-append d e [] t h = ap (λ n. scan_braces n t) (some-injective d e h)
scan_braces-append d e (c ∷ s) t h = ground (
  arith,
  scan_braces-append (suc d) e s t,
  scan_braces-append (d - 1) e s t,
  scan_braces-append d e s t,
)

scan_braces_closing :
    (d : ℕ) (s : Text) → scan_braces (suc (suc d)) (b'}' ∷ s) ≡ scan_braces (suc d) s
unfolding scan_braces
scan_braces_closing d s = at_depth (suc d) (suc_ne d)
  where
    suc_ne : (d : ℕ) → (suc d == 0) ≡ false
    suc_ne d = ground arith

    at_depth : (e : ℕ) → (e == 0) ≡ false → scan_braces (suc e) (b'}' ∷ s) ≡ scan_braces e s
    at_depth e h = ground arith

scan_braces-Balanced : (d : ℕ) (s : Text) → Balanced s → scan_braces (suc d) s ≡ some (suc d)
unfolding scan_braces nat_eq
scan_braces-Balanced d s empty = refl
scan_braces-Balanced d s (char c t no_open no_close b) =
    rw (no_open, no_close) (scan_braces-Balanced d t b)
scan_braces-Balanced d s (braces t u b c) =
    scan_braces-append (suc (suc d)) (suc (suc d)) t (b'}' ∷ u) (scan_braces-Balanced (suc d) t b)
    ∙ scan_braces_closing d u
    ∙ scan_braces-Balanced d u c

tails : (x y : ℕ) (s t : Text) → x ∷ s ≡ y ∷ t → (x ≡ y) × (s ≡ t)
tails x y s t h = (cc, cc)

no_more : (a : ℕ) (l j : Text) → l ++ a ∷ j ≢ []
no_more a [] j = λ q. cc
no_more a (c ∷ l) j = λ q. cc

-- A text with an `a` in it, whose last character is another.
split_last :
    (a b : ℕ) (l j u : Text)
    → a ≢ b
    → l ++ a ∷ j ≡ u ++ b ∷ []
    → (v : Text) × (u ≡ l ++ a ∷ v) × (j ≡ v ++ b ∷ [])
split_last a b [] j [] ne h = absurd (ne (tails a b j [] h).0)
split_last a b [] j (x ∷ u) ne h =
    let (head, rest) = tails a x j (u ++ b ∷ []) h in (u, ap (λ c. c ∷ u) (sym head), rest)
split_last a b (c ∷ l) j [] ne h = absurd (no_more a l j (tails c b (l ++ a ∷ j) [] h).1)
split_last a b (c ∷ l) j (x ∷ u) ne h =
    let (head, rest) = tails c x (l ++ a ∷ j) (u ++ b ∷ []) h in
    let (v, e, f) = split_last a b l j u ne rest in
    (v, ap (λ k. k ∷ u) (sym head) ∙ ap (λ t. c ∷ t) e, f)

Splits : ℕ → Option ℕ → Text → Option ℕ → Type 0
Splits e whole t part = whole ≡ some e → (f : ℕ) × (part ≡ some f) × (scan_braces f t ≡ some e)

scan_braces-prefix : (d e : ℕ) (s t : Text) → Splits e (scan_braces d (s ++ t)) t (scan_braces d s)
unfolding scan_braces Splits
scan_braces-prefix d e [] t = λ h. (d, refl, h)
scan_braces-prefix d e (c ∷ s) t =
    by_test (c == b'{') (c == b'}') (d - 1 == 0) (scan_braces-prefix (suc d) e s t)
      (scan_braces-prefix (d - 1) e s t) (scan_braces-prefix d e s t)
  where
    by_test :
        {o o' p p' q q' : Option ℕ} (a b z : Bool)
        → Splits e o t o'
        → Splits e p t p'
        → Splits e q t q'
        → Splits e
            (if a then o else (if b then (if z then none else p) else q))
            t
            (if a then o' else (if b then (if z then none else p') else q'))
    by_test true b z f g h = f
    by_test false true true f g h = λ e. cc
    by_test false true false f g h = g
    by_test false false z f g h = h

scan_braces-front :
    (d e : ℕ) (s t : Text)
    → scan_braces d (s ++ t) ≡ some e
    → (f : ℕ) × (scan_braces d s ≡ some f) × (scan_braces f t ≡ some e)
unfolding Splits
scan_braces-front d e s t h = scan_braces-prefix d e s t h

scan_braces_last : scan_braces 1 (b'}' ∷ []) ≡ none
unfolding scan_braces nat_eq
scan_braces_last = refl

scan_braces_line_break : (d : ℕ) (s : Text) → scan_braces d (10 ∷ s) ≡ scan_braces d s
unfolding scan_braces nat_eq
scan_braces_line_break d s = refl

line_break_ne : ◌≢◌ {A = ℕ} 10 b'}'
line_break_ne = λ q. omega (arith, q)

-- The lines of a text that closes the braces with its last character are kept, and no more.
object_lines-closing :
    (d : ℕ) (l : Text) (ls rest : List Text) (u : Text)
    → join_lines (l ∷ ls) ≡ u ++ b'}' ∷ []
    → scan_braces d u ≡ some 1
    → object_lines d ((l ∷ ls) ++ rest) ≡ some (l ∷ ls)
unfolding object_lines
object_lines-closing d l [] rest u whole inside =
    let closed : scan_braces d l ≡ none =
      ap (scan_braces d) whole ∙ scan_braces-append d 1 u (b'}' ∷ []) inside ∙ scan_braces_last in
    rw (closed, object_lines) refl
object_lines-closing d l (k ∷ ls) rest u whole inside =
    let (v, front, back) = split_last 10 b'}' l (join_lines (k ∷ ls)) u line_break_ne whole in
    let (e, read, onward) =
      scan_braces-front d 1 l (10 ∷ v) (sym (ap (scan_braces d) front) ∙ inside) in
    let later =
      object_lines-closing e k ls rest v back (sym (scan_braces_line_break e v) ∙ onward) in
    rw (read, object_lines) (ap (more_lines l) later)

same_brace : (c : ℕ) → c ≡ b'{' → (c == b'{') ≡ true
same_brace c h = ground (arith, h)

brace_ne : ◌≢◌ {A = ℕ} 10 b'{'
brace_ne = λ q. omega (arith, q)

starts_brace-join_lines :
    (l t : Text) (ls : List Text) → join_lines (l ∷ ls) ≡ b'{' ∷ t → starts_brace l ≡ true
starts_brace-join_lines [] t [] h = cc
starts_brace-join_lines [] t (k ∷ ls) h =
    absurd (brace_ne (tails 10 b'{' (join_lines (k ∷ ls)) t h).0)
starts_brace-join_lines (c ∷ l) t [] h = same_brace c (tails c b'{' l t h).0
starts_brace-join_lines (c ∷ l) t (k ∷ ls) h =
    same_brace c (tails c b'{' (l ++ 10 ∷ join_lines (k ∷ ls)) t h).0

scan_braces_object : (s : Text) → Balanced s → scan_braces 0 (b'{' ∷ s) ≡ some 1
unfolding scan_braces nat_eq
scan_braces_object s b = scan_braces-Balanced 0 s b

not-true : (b : Bool) → not b ≡ true → b ≡ false
not-true b h = ground arith

module _ {J : Type 0} (loads : Text → Option J) where
  slow_path_behind :
      (infos ls : List Text)
      → all (λ l. not (starts_brace l)) infos ≡ true
      → slow_path loads (infos ++ ls) ≡ slow_path loads ls
  unfolding slow_path
  slow_path_behind [] ls h = refl
  slow_path_behind (i ∷ infos) ls h =
      let (now, later) = &&-split (not (starts_brace i)) _ h in
      rw (not-true (starts_brace i) now) (slow_path_behind infos ls later)

  slow_path-IsObject :
      (payload rest : List Text)
      → IsObject (join_lines payload)
      → slow_path loads (payload ++ rest) ≡ loads (join_lines payload)
  unfolding slow_path
  slow_path-IsObject [] rest (body, b, h) = cc
  slow_path-IsObject (l ∷ ls) rest (body, b, h) =
      let found = object_lines-closing 0 l ls rest (b'{' ∷ body) h (scan_braces_object body b) in
      let begins = starts_brace-join_lines l (body ++ b'}' ∷ []) ls h in
      rw begins (ap (λ o. bind o (λ buf. loads (join_lines buf))) found)

  -- Behind lines that do not begin with a brace, an object whose braces stand in pairs is decoded exactly
  -- from its lines, whatever follows it, unless the output itself begins with a brace.
  pub try_parse_cli_json-IsObject :
      (stdout : Text) (infos payload rest : List Text)
      → splitlines stdout ≡ infos ++ (payload ++ rest)
      → starts_brace (lstrip stdout) ≡ false
      → all (λ l. not (starts_brace l)) infos ≡ true
      → IsObject (join_lines payload)
      → try_parse_cli_json loads stdout ≡ loads (join_lines payload)
  unfolding try_parse_cli_json
  try_parse_cli_json-IsObject stdout infos payload rest lines slow plain object =
      by_text stdout slow (
        ap (slow_path loads) lines
        ∙ slow_path_behind infos (payload ++ rest) plain
        ∙ slow_path-IsObject payload rest object)
    where
      by_text :
          (stdout : Text)
          → starts_brace (lstrip stdout) ≡ false
          → slow_path loads (splitlines stdout) ≡ loads (join_lines payload)
          → try_parse_cli_json loads stdout ≡ loads (join_lines payload)
      by_text [] slow h = (unfold splitlines slow_path in h)
      by_text (c ∷ s) slow h = rw slow h
