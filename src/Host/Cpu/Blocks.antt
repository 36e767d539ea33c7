-- ===== src/Host/Cpu/Blocks.antt =====
-- The processors that `_parse_cpuinfo` of engines/host_facts.py reads, printed and read back.
use mathlib.Core.List.{append_assoc, append-nil}
use delta_forge_benchmarks.Common.{
  ◌≡◌, ◌≢◌, refl, sym, subst, ap, ◌∙◌, Bool, true, false, not, ◌||◌, none, List, [], ◌∷◌, ◌++◌, map,
  all, contains, if◌then◌else◌, ◌==◌, nat_eq, list_eq, &&-split, arith,
}
use delta_forge_benchmarks.Catalog.Qualify.{lower}
use delta_forge_benchmarks.Common.Dict.{lookup, insert, insert-eq-append, NodupKeys}
use delta_forge_benchmarks.Common.Text.{Text}
use delta_forge_benchmarks.Common.Words.{partition}
use delta_forge_benchmarks.Host.Cpu.{Block, push_if, add_field, blocks_from}
use delta_forge_benchmarks.Purge.{strip, lstrip, rstrip}

-- A line of a processor: what stands before and behind its first colon, white space included.
abbrev pub field_line : Text × Text → Text
field_line (k, v) = k ++ 58 ∷ v

-- What is kept of a line.
abbrev pub field_of : Text × Text → Text × Text
field_of (k, v) = (lower (strip k), strip v)

-- The lines of the processors, with an empty line between two of them.
unfoldable pub print_blocks : List Block → List Text
print_blocks [] = []
print_blocks (b ∷ []) = map field_line b
print_blocks (b ∷ c ∷ bs) = map field_line b ++ [] ∷ print_blocks (c ∷ bs)

-- Nothing before the colon of a line has a colon.
abbrev pub is_field : Text × Text → Bool
is_field (k, v) = not (contains k 58)

-- A processor has a field, and no two of its fields have one name but for capitals and white space.
abbrev pub IsBlock : Block → Type 0
IsBlock b = (b ≢ []) × NodupKeys (map field_of b) × (all is_field b ≡ true)

abbrev pub AllBlocks : List Block → Type 0
AllBlocks [] = Unit
AllBlocks (b ∷ bs) = IsBlock b × AllBlocks bs

or_false : (a b : Bool) → (a || b) ≡ false → (a ≡ false) × (b ≡ false)
or_false a b h = ground arith

not-true : (b : Bool) → not b ≡ true → b ≡ false
not-true b h = ground arith

partition-append :
    (k rest : Text) → contains k 58 ≡ false → partition 58 (k ++ 58 ∷ rest) ≡ (k, rest)
unfolding partition
partition-append [] rest h = unfold nat_eq in refl
partition-append (c ∷ k) rest h =
    let (now, later) = or_false (58 == c) (contains k 58) h in
    by_test (c == 58) (partition 58 (k ++ 58 ∷ rest)) (differs now) (partition-append k rest later)
  where
    differs : (58 == c) ≡ false → (c == 58) ≡ false
    differs h = ground arith

    by_test :
        (b : Bool) (p : Text × Text)
        → b ≡ false
        → p ≡ (k, rest)
        → let found : Text × Text = ([], k ++ 58 ∷ rest) in
          let whole : Text × Text = (c ∷ k, rest) in
          let later : Text × Text = (c ∷ p.0, p.1) in (if b then found else later) ≡ whole
    by_test true p h e = cc
    by_test false p h e = ap (λ (t : Text × Text). (c ∷ t.0, t.1)) e

has_char_middle : (k rest : Text) → contains (k ++ 58 ∷ rest) 58 ≡ true
has_char_middle [] rest = unfold nat_eq in refl
has_char_middle (c ∷ k) rest = ground (arith, has_char_middle k rest)

-- A line with a colon is not blank.
lstrip_solid : (k v : Text) → contains (lstrip (k ++ 58 ∷ v)) 58 ≡ true
unfolding lstrip
lstrip_solid [] v = unfold nat_eq in refl
lstrip_solid (c ∷ k) v = ground (arith, lstrip_solid k v, has_char_middle k v)

rstrip_solid : (s : Text) → contains s 58 ≡ true → (rstrip s == []) ≡ false
unfolding rstrip list_eq
rstrip_solid [] h = cc
rstrip_solid (c ∷ s) h = ground (arith, rstrip_solid s, h)

strip_solid : (k v : Text) → (strip (k ++ 58 ∷ v) == []) ≡ false
unfolding strip
strip_solid k v = rstrip_solid (lstrip (k ++ 58 ∷ v)) (lstrip_solid k v)

add_field_line :
    (k v : Text) (current : Block)
    → is_field (k, v) ≡ true
    → add_field (field_line (k, v)) current ≡ insert (lower (strip k)) (strip v) current
unfolding add_field
add_field_line k v current h =
    let plain = not-true _ h in
    rw (has_char_middle k v) (
      ap (λ (t : Text × Text). insert (lower (strip t.0)) (strip t.1) current)
        (partition-append k v plain))

lookup_middle :
    (j k : Text) (v : Text) (xs ys : Block) → lookup j (xs ++ (k, v) ∷ ys) ≡ none → (j == k) ≡ false
lookup_middle j k v [] ys h = ground arith
lookup_middle j k v ((i, w) ∷ xs) ys h = ground (arith, lookup_middle j k v xs ys)

differ_sym : (j k : Text) → (j == k) ≡ false → (k == j) ≡ false
differ_sym j k h = ground arith

nodup_before : (k v : Text) (xs ys : Block) → NodupKeys (xs ++ (k, v) ∷ ys) → lookup k xs ≡ none
nodup_before k v [] ys h = refl
nodup_before k v ((j, w) ∷ xs) ys (fresh, h) =
    rw (differ_sym j k (lookup_middle j k v xs ys fresh)) (nodup_before k v xs ys h)

-- The lines of one processor are added to the current one, whatever follows.
blocks_from_fields :
    (current fs : Block) (rest : List Text)
    → all is_field fs ≡ true
    → NodupKeys (current ++ map field_of fs)
    → blocks_from current (map field_line fs ++ rest)
      ≡ blocks_from (current ++ map field_of fs) rest
unfolding blocks_from list_eq
blocks_from_fields current [] rest h u = ap (λ c. blocks_from c rest) (sym (append-nil current))
blocks_from_fields current ((k, v) ∷ fs) rest h u =
    let (now, later) = &&-split (is_field (k, v)) (all is_field fs) h in
    let solid = strip_solid k v in
    let grown : add_field (field_line (k, v)) current ≡ current ++ field_of (k, v) ∷ [] =
      add_field_line k v current now
      ∙ insert-eq-append (lower (strip k)) (strip v) current
          (nodup_before (lower (strip k)) (strip v) current (map field_of fs) u) in
    let whole = append_assoc current (field_of (k, v) ∷ []) (map field_of fs) in
    rw solid (
      ap (λ c. blocks_from c (map field_line fs ++ rest)) grown
      ∙ blocks_from_fields (current ++ field_of (k, v) ∷ []) fs rest later
          (subst NodupKeys (sym whole) u)
      ∙ ap (λ c. blocks_from c rest) whole)

pushed :
    (b : Block) (later : List Block)
    → b ≢ []
    → push_if (map field_of b) later ≡ map field_of b ∷ later
pushed [] later h = absurd (h refl)
pushed (f ∷ fs) later h = refl

blocks_from_blank :
    (current : Block) (rest : List Text)
    → blocks_from current ([] ∷ rest) ≡ push_if current (blocks_from [] rest)
unfolding blocks_from list_eq strip
blocks_from_blank current rest = refl

blocks_from_end : (current : Block) → blocks_from current [] ≡ push_if current []
unfolding blocks_from
blocks_from_end current = refl

-- An empty line ends a processor, and so does the end of the file.
blocks_from_ended :
    (b : Block) (rest : List Text)
    → IsBlock b
    → (blocks_from [] (map field_line b ++ [] ∷ rest) ≡ map field_of b ∷ blocks_from [] rest)
      × (blocks_from [] (map field_line b) ≡ map field_of b ∷ [])
blocks_from_ended b rest (some_field, nodup, fields) = (
  blocks_from_fields [] b ([] ∷ rest) fields nodup
      ∙ blocks_from_blank (map field_of b) rest
      ∙ pushed b (blocks_from [] rest) some_field,
  ap (blocks_from []) (sym (append-nil (map field_line b)))
      ∙ blocks_from_fields [] b [] fields nodup
      ∙ blocks_from_end (map field_of b)
      ∙ pushed b [] some_field,
)

-- The lines that describe processors, with an empty line between two of them and with or without one at
-- the end, are read as these processors, in their order: each field is kept under its name, in small letters
-- and without the white space around it, with its value, without the white space around it. Each processor has
-- a line, no name has a colon, and no two lines of one processor have names that become one.
pub blocks_from-print_blocks :
    (bs : List Block)
    → AllBlocks bs
    → (blocks_from [] (print_blocks bs) ≡ map (λ b. map field_of b) bs)
      × (blocks_from [] (print_blocks bs ++ [] ∷ []) ≡ map (λ b. map field_of b) bs)
unfolding print_blocks
blocks_from-print_blocks [] h = (blocks_from_end [], blocks_from_blank [] [] ∙ blocks_from_end [])
blocks_from-print_blocks (b ∷ []) (h, _) =
    let (closed, bare) = blocks_from_ended b [] h in
    (bare, closed ∙ ap (λ l. map field_of b ∷ l) (blocks_from_end []))
blocks_from-print_blocks (b ∷ c ∷ bs) (h, hs) =
    let (bare, closed) = blocks_from-print_blocks (c ∷ bs) hs in
    let rest = print_blocks (c ∷ bs) in
    (
      (blocks_from_ended b rest h).0 ∙ ap (λ l. map field_of b ∷ l) bare,
      ap (blocks_from []) (append_assoc (map field_line b) ([] ∷ rest) ([] ∷ []))
          ∙ (blocks_from_ended b (rest ++ [] ∷ []) h).0
          ∙ ap (λ l. map field_of b ∷ l) closed,
    )
