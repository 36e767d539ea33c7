-- ===== src/Workloads/Digest/Laws.antt =====
-- Lemmas on `hash_result_rows` of workloads/spec.py: the order on texts, and the lines.
use mathlib.Core.List
use mathlib.Core.Bool.{true≢false}
use mathlib.Core.List.{Perm, nil≢cons, head-eq_of_cons-eq, tail-eq_of_cons-eq}
use mathlib.Core.List.Perm
use native.Mathlib.Nat.{ℕ_set}
use delta_forge_benchmarks.Common.{
  ℕ, ◌≡◌, ◌≢◌, refl, sym, ap, ap₂, ◌∙◌, subst, Bool, true, false, List, [], ◌∷◌, ◌++◌, length,
  length-map, arith, all, not, ◌==◌, ==_refl, ◌||◌, nat_eq, list_eq, contains, &&-split, ◌⊎◌, inl,
  inr, Bool-cases, ==-sound,
}
use delta_forge_benchmarks.Common.Sort.{sorted}
use delta_forge_benchmarks.Common.Sort.Laws.{
  all-sorted, sorted-perm, length-sorted, IsOrder, sorted-eq_of_perm,
}
use delta_forge_benchmarks.Common.Text.{Text, text_le}
use delta_forge_benchmarks.Workloads.Digest.{Cell, render_row, rendered, lines, hash_result_rows}

text_le-total : (a b : Text) → text_le a b ≡ false → text_le b a ≡ true
text_le-total [] [] h = refl
text_le-total [] (d ∷ t) h = ground arith
text_le-total (c ∷ s) [] h = refl
text_le-total (c ∷ s) (d ∷ t) h = ground (arith, text_le-total s t)

text_le_trans : (a b c : Text) → text_le a b ≡ true → text_le b c ≡ true → text_le a c ≡ true
text_le_trans [] b c h k = refl
text_le_trans (x ∷ a) [] c h k = ground arith
text_le_trans (x ∷ a) (y ∷ b) [] h k = ground arith
text_le_trans (x ∷ a) (y ∷ b) (z ∷ c) h k = ground (arith, text_le_trans a b c)

text_le_antisymm : (a b : Text) → text_le a b ≡ true → text_le b a ≡ true → a ≡ b
text_le_antisymm [] [] h k = refl
text_le_antisymm [] (d ∷ t) h k = ground arith
text_le_antisymm (c ∷ s) [] h k = ground arith
text_le_antisymm (c ∷ s) (d ∷ t) h k = ground (arith, text_le_antisymm s t)

pub text_le-IsOrder : IsOrder text_le
text_le-IsOrder = record {
  total = text_le-total;
  trans = text_le_trans;
  antisymm = text_le_antisymm;
}

-- Results with the same rows in any order have the same digest and the same count, which is the number
-- of the rows.
pub hash_result_rows-eq_of_perm :
    {D : Type 0} (sha256 : Text → D) (rows others : List (List Cell))
    → Perm rows others
    → (hash_result_rows sha256 rows ≡ hash_result_rows sha256 others)
      × ((hash_result_rows sha256 rows).1 ≡ length rows)
unfolding hash_result_rows
hash_result_rows-eq_of_perm sha256 rows others p = (
  ap (λ ls. (sha256 (lines ls), length ls))
      (sorted-eq_of_perm text_le text_le-IsOrder (List.is_set ℕ_set) (Perm.map render_row p)),
  length-sorted text_le (rendered rows) ∙ length-map render_row rows,
)

-- A line without a line break.
abbrev pub is_line : Text → Bool
is_line l = not (contains l 10)

no_break : (c : ℕ) (l : Text) → is_line (c ∷ l) ≡ true → 10 ≢ c
no_break c l h p = true≢false (
    sym h
    ∙ ap not
        (found (10 == c) (contains l 10) (subst (λ d. (10 == d) ≡ true) p (==_refl {A = ℕ} 10))))
  where
    found : (b c : Bool) → b ≡ true → (b || c) ≡ true
    found true c e = refl
    found false c e = elim (true≢false (sym e)) [ ]

is_line_tail : (c : ℕ) (l : Text) → is_line (c ∷ l) ≡ true → is_line l ≡ true
is_line_tail c l h = ground (arith, h)

first_line :
    (l m r s : Text)
    → is_line l ≡ true
    → is_line m ≡ true
    → l ++ 10 ∷ r ≡ m ++ 10 ∷ s
    → (l ≡ m) × (r ≡ s)
first_line [] [] r s h k e = (refl, tail-eq_of_cons-eq e)
first_line [] (c ∷ m) r s h k e = elim (no_break c m k (head-eq_of_cons-eq e)) [ ]
first_line (c ∷ l) [] r s h k e = elim (no_break c l h (sym (head-eq_of_cons-eq e))) [ ]
first_line (c ∷ l) (d ∷ m) r s h k e =
    let (same, rest) =
      first_line l m r s (is_line_tail c l h) (is_line_tail d m k) (tail-eq_of_cons-eq e) in
    (ap₂ ◌∷◌ (head-eq_of_cons-eq e) same, rest)

lines_empty : (m s : Text) → [] ≢ m ++ 10 ∷ s
lines_empty [] s p = nil≢cons p
lines_empty (c ∷ m) s p = nil≢cons p

lines-injective :
    (ls ms : List Text)
    → all is_line ls ≡ true
    → all is_line ms ≡ true
    → lines ls ≡ lines ms
    → ls ≡ ms
lines-injective [] [] h k e = refl
lines-injective [] (m ∷ ms) h k e = elim (lines_empty m (lines ms) e) [ ]
lines-injective (l ∷ ls) [] h k e = elim (lines_empty l (lines ls) (sym e)) [ ]
lines-injective (l ∷ ls) (m ∷ ms) h k e =
    let (line, others) = &&-split (is_line l) (all is_line ls) h in
    let (line', others') = &&-split (is_line m) (all is_line ms) k in
    let (same, rest) = first_line l m (lines ls) (lines ms) line line' e in
    ap₂ ◌∷◌ same (lines-injective ls ms others others' rest)

-- The text whose digest is taken: the printed rows in order, each with a line break behind it.
abbrev pub digested : List (List Cell) → Text
digested rows = lines (sorted text_le (rendered rows))

-- Two results with equal digests, of which no printed row has a line break, have the same printed rows up to
-- order, or else the two texts whose digests were taken differ and are a collision of the digest.
pub rendered_perm-hash_result_rows :
    {D : Type 0} (sha256 : Text → D) (rows others : List (List Cell))
    → all is_line (rendered rows) ≡ true
    → all is_line (rendered others) ≡ true
    → (hash_result_rows sha256 rows).0 ≡ (hash_result_rows sha256 others).0
    → Perm (rendered rows) (rendered others)
      ⊎ (digested rows ≢ digested others) × (sha256 (digested rows) ≡ sha256 (digested others))
unfolding hash_result_rows
rendered_perm-hash_result_rows sha256 rows others h k e =
    elim (Bool-cases (digested rows == digested others)) [
      | inl same ↦ inl (
          Perm.trans (Perm.symm (sorted-perm text_le xs))
            (subst (λ l. Perm l ys) (sym (same_lines same)) (sorted-perm text_le ys)))
      | inr differ ↦ inr (
        λ p. true≢false (sym (==_refl (digested rows)) ∙ ap (λ t. digested rows == t) p ∙ differ),
        e,
      )
    ]
  where
    xs : List Text
    xs = rendered rows

    ys : List Text
    ys = rendered others

    same_lines : (digested rows == digested others) ≡ true → sorted text_le xs ≡ sorted text_le ys
    same_lines same =
        lines-injective (sorted text_le xs) (sorted text_le ys) (all-sorted is_line text_le xs h)
          (all-sorted is_line text_le ys k) (==-sound (digested rows) (digested others) same)
