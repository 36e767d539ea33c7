-- ===== src/Workloads/Digest.antt =====
-- The digest of a result (workloads/spec.py). What Python prints of a value is given with the value.
pub mod Laws
use delta_forge_benchmarks.Common.{
  ℕ, ◌+◌, ◌/◌, ◌%◌, List, [], ◌∷◌, ◌++◌, map, ltb, if◌then◌else◌, length,
}
use delta_forge_benchmarks.Common.Sort.{sorted}
use delta_forge_benchmarks.Common.Text.{Text, codes, text_le}

-- A cell: `float` with its `repr`, `bytes` with its bytes, `other` with its `str`.
pub data Cell : Type 0 where
  null : Cell
  float : Text → Cell
  bytes : List ℕ → Cell
  other : Text → Cell

abbrev hex_digit : ℕ → ℕ
hex_digit d = if ltb d 10 then 48 + d else 87 + d

-- `v.hex()`
abbrev pub hex : List ℕ → Text
hex [] = []
hex (b ∷ bs) = hex_digit (b / 16) ∷ hex_digit (b % 16) ∷ hex bs

unfoldable pub render_cell : Cell → Text
render_cell null = codes "NULL"
render_cell (float s) = s
render_cell (bytes bs) = hex bs
render_cell (other s) = s

-- `"\t".join(...)`
unfoldable pub render_row : List Cell → Text
unfolding render_cell
render_row [] = []
render_row (c ∷ []) = render_cell c
render_row (c ∷ d ∷ cs) = render_cell c ++ 9 ∷ render_row (d ∷ cs)

-- The text that the digest is fed: each line with a line break.
abbrev pub lines : List Text → Text
lines [] = []
lines (l ∷ ls) = l ++ 10 ∷ lines ls

abbrev pub rendered : List (List Cell) → List Text
rendered rows = map render_row rows

-- `sha256` is the digest of a text.
module _ {D : Type 0} (sha256 : Text → D) where
  unfoldable pub hash_result_rows : List (List Cell) → D × ℕ
  hash_result_rows rows =
      let ordered = sorted text_le (rendered rows) in (sha256 (lines ordered), length ordered)
