-- ===== src/Host/Cpu.antt =====
-- `_parse_cpuinfo` and `_cpufreq_facts` of engines/host_facts.py.
pub mod Blocks
use Prim.Native.Nat.{min, max}
use delta_forge_benchmarks.Common.{
  ℕ, ◌/◌, Bool, true, false, not, ◌&&◌, Option, none, some, String, List, [], ◌∷◌, ◌++◌, map, keep,
  length, contains, if◌then◌else◌, ◌==◌, nat_eq, list_eq, option_eq, pair_eq,
}
use delta_forge_benchmarks.Catalog.Qualify.{lower}
use delta_forge_benchmarks.Common.Dict.{Dict, lookup, insert}
use delta_forge_benchmarks.Common.Lines.{splitlines}
use delta_forge_benchmarks.Common.Sort.{sorted}
use delta_forge_benchmarks.Common.Text.{Text, codes, text_le}
use delta_forge_benchmarks.Common.Words.{partition, has_char, split_words, is_digits}
use delta_forge_benchmarks.Curve.Streams.{read}
use delta_forge_benchmarks.Engines.Output.{bind, parse_float}
use delta_forge_benchmarks.Purge.{strip}

abbrev pub Block : Type 0
Block = Dict Text Text

abbrev pub push_if : Block → List Block → List Block
push_if [] later = later
push_if (f ∷ fs) later = (f ∷ fs) ∷ later

-- A line of the current processor.
unfoldable pub add_field : Text → Block → Block
unfolding strip lower partition
add_field line current =
    if has_char b':' line
    then (let (k, v) = partition b':' line in insert (lower (strip k)) (strip v) current)
    else current

-- The loop over the lines: a blank line ends a processor that has fields.
unfoldable pub blocks_from : Block → List Text → List Block
unfolding add_field
blocks_from current [] = push_if current []
blocks_from current (l ∷ ls) =
    let ended = push_if current (blocks_from [] ls) in
    let on = blocks_from (add_field l current) ls in if strip l == [] then ended else on

-- The distinct pairs.
abbrev pub CoreId : Type 0
CoreId = Option Text × Text

unfoldable pub distinct : List CoreId → List CoreId
distinct [] = []
distinct (p ∷ ps) = let rest = distinct ps in if contains rest p then rest else p ∷ rest

unfoldable pub core_ids : List Block → List CoreId
core_ids [] = []
core_ids (b ∷ bs) = elim (lookup (codes "core id") b) [
  | none ↦ core_ids bs
  | some core ↦ (lookup (codes "physical id") b, core) ∷ core_ids bs
]

abbrev known_isa : List Text
known_isa =
    codes "avx"
    ∷ codes "avx2"
    ∷ codes "avx512f"
    ∷ codes "avx512vnni"
    ∷ codes "avx_vnni"
    ∷ codes "sse4_2"
    ∷ codes "aes"
    ∷ codes "sha_ni"
    ∷ codes "bmi2"
    ∷ codes "fma"
    ∷ codes "amx_tile"
    ∷ []

pub record CpuInfo : Type 0 where
  pub logical_threads : ℕ
  pub vendor : Option Text
  pub model_name : Option Text
  pub family : Option Text
  pub model : Option Text
  pub stepping : Option Text
  pub microcode : Option Text
  pub mhz_first_processor : Option ℕ
  pub cache_size : Option Text
  pub flags : List Text
  pub physical_cores : Option ℕ
  pub isa : List Text

-- `int(s)` if `s.isdigit()`
abbrev pub int_if_digits : Text → Option ℕ
int_if_digits s = if is_digits s then some (read 0 s).0 else none

abbrev words_of : Option Text → List Text
words_of none = []
words_of (some s) = split_words s

-- The pairs, or else the field of the first processor.
abbrev core_count : List CoreId → Option Text → Option ℕ
core_count [] cores = bind cores int_if_digits
core_count (p ∷ ps) cores = some (length (p ∷ ps))

unfoldable pub summary : Block → List Block → CpuInfo
unfolding distinct core_ids read split_words parse_float
summary first processors =
    let flags = words_of (lookup (codes "flags") first) in
    record {
      logical_threads = length processors;
      vendor = lookup (codes "vendor_id") first;
      model_name = lookup (codes "model name") first;
      family = lookup (codes "cpu family") first;
      model = lookup (codes "model") first;
      stepping = lookup (codes "stepping") first;
      microcode = lookup (codes "microcode") first;
      mhz_first_processor = bind (lookup (codes "cpu mhz") first) parse_float;
      cache_size = lookup (codes "cache size") first;
      flags = flags;
      physical_cores =
          core_count (distinct (core_ids processors)) (lookup (codes "cpu cores") first);
      isa = sorted text_le (keep (λ f. contains flags f) known_isa);
    }

abbrev summary_of : List Block → Option CpuInfo
summary_of [] = none
summary_of (b ∷ bs) = some (summary b (b ∷ bs))

-- `_parse_cpuinfo`; none is the empty dict.
unfoldable pub parse_cpuinfo : Option Text → Option CpuInfo
unfolding blocks_from summary splitlines
parse_cpuinfo text = bind text (λ t. summary_of (blocks_from [] (splitlines t)))

-- The files of one processor below cpufreq.
pub record CpuDir : Type 0 where
  pub governor : Option Text
  pub driver : Option Text
  pub cur_freq : Option Text
  pub max_freq : Option Text
  pub min_freq : Option Text

-- One value, or all of them in their order.
pub data Collapsed : Type 0 where
  uniform : Text → Collapsed
  mixed : List Text → Collapsed

pub record CpuFreq : Type 0 where
  pub governor : Option Collapsed
  pub driver : Option Collapsed
  pub max_mhz : Option ℕ
  pub min_mhz : Option ℕ
  pub current_mhz_min : Option ℕ
  pub current_mhz_max : Option ℕ

abbrev add_given : Option Text → List Text → List Text
add_given none ts = ts
add_given (some []) ts = ts
add_given (some (c ∷ s)) ts = strip (c ∷ s) ∷ ts

abbrev add_khz : Option Text → List ℕ → List ℕ
add_khz none ns = ns
add_khz (some s) ns = elim (int_if_digits (strip s)) [ none ↦ ns | some n ↦ n ∷ ns ]

unfoldable pub texts_of : (CpuDir → Option Text) → List CpuDir → List Text
unfolding strip
texts_of file [] = []
texts_of file (d ∷ ds) = add_given (file d) (texts_of file ds)

unfoldable pub khz_of : (CpuDir → Option Text) → List CpuDir → List ℕ
unfolding strip read
khz_of file [] = []
khz_of file (d ∷ ds) = add_khz (file d) (khz_of file ds)

-- `sorted(set(ts))`
unfoldable pub unique_sorted : List Text → List Text
unique_sorted ts = let u = keep_last ts in sorted text_le u
  where
    keep_last : List Text → List Text
    keep_last [] = []
    keep_last (t ∷ ts) = let rest = keep_last ts in if contains rest t then rest else t ∷ rest

abbrev collapse_sorted : List Text → Option Collapsed
collapse_sorted [] = none
collapse_sorted (t ∷ []) = some (uniform t)
collapse_sorted (t ∷ u ∷ ts) = some (mixed (t ∷ u ∷ ts))

abbrev least : ℕ → List ℕ → ℕ
least m [] = m
least m (x ∷ xs) = least (min m x) xs

abbrev greatest : ℕ → List ℕ → ℕ
greatest m [] = m
greatest m (x ∷ xs) = greatest (max m x) xs

abbrev pub min_mhz_of : List ℕ → Option ℕ
min_mhz_of [] = none
min_mhz_of (x ∷ xs) = some (least x xs / 1000)

abbrev pub max_mhz_of : List ℕ → Option ℕ
max_mhz_of [] = none
max_mhz_of (x ∷ xs) = some (greatest x xs / 1000)

-- `_cpufreq_facts`, on the directories in the order of their names.
unfoldable pub cpufreq_facts : List CpuDir → CpuFreq
unfolding texts_of khz_of unique_sorted
cpufreq_facts dirs = record {
  governor = collapse_sorted (unique_sorted (texts_of (λ d. d.governor) dirs));
  driver = collapse_sorted (unique_sorted (texts_of (λ d. d.driver) dirs));
  max_mhz = max_mhz_of (khz_of (λ d. d.max_freq) dirs);
  min_mhz = min_mhz_of (khz_of (λ d. d.min_freq) dirs);
  current_mhz_min = min_mhz_of (khz_of (λ d. d.cur_freq) dirs);
  current_mhz_max = max_mhz_of (khz_of (λ d. d.cur_freq) dirs);
}
