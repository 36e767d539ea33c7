-- ===== src/Examples/Pages.antt =====
-- Facts of a small host, and the tables of a small page.
use delta_forge_benchmarks.Common.{
  ℕ, ◌+◌, ◌≡◌, ◌≢◌, refl, false, Option, none, some, List, [], ◌∷◌, ◌++◌, map, count_if,
  if◌then◌else◌, ◌==◌, nat_eq, list_eq,
}
use delta_forge_benchmarks.Common.Dict.{lookup}
use delta_forge_benchmarks.Common.Lines.{splitlines}
use delta_forge_benchmarks.Common.Sort.{sorted}
use delta_forge_benchmarks.Common.Text.{Text, codes}
use delta_forge_benchmarks.Catalog.Qualify.{lower}
use delta_forge_benchmarks.Purge.{strip}
use delta_forge_benchmarks.Host.Cpu.{Block, blocks_from}
use delta_forge_benchmarks.Host.Cpu.Blocks.{
  field_of, print_blocks, AllBlocks, blocks_from-print_blocks,
}
use delta_forge_benchmarks.Host.Mount.{Names, mounts_of, mount_for_path}
use delta_forge_benchmarks.Host.Mount.Longest.{IsLongest, mount_for_path-IsLongest}
use delta_forge_benchmarks.Published.Medians.{Line, load_engine_records}
use delta_forge_benchmarks.Published.Medians.Counts.{is_failed, is_query}
use delta_forge_benchmarks.Published.Medians.Laws.{warm_times, lookup-load_engine_records}
use delta_forge_benchmarks.Published.Tables.{bench_tables}
use delta_forge_benchmarks.Published.Tables.Page.{IsPage, bench_tables-IsPage}
use delta_forge_benchmarks.Published.Writes.{WriteStats, engine_stats}
use delta_forge_benchmarks.Published.Writes.Laws.{
  is_write, warm_writes, Ranked, engine_stats-Ranked,
}
use delta_forge_benchmarks.Stats.Percentile.{median}

abbrev processor : Text → Block
processor n =
    (codes "processor\t", 32 ∷ n)
    ∷ (codes "cpu MHz\t\t", codes " 2450.000")
    ∷ (codes "BogoMIPS\t", codes " 4900.00")
    ∷ (codes "power management", [])
    ∷ []

abbrev blocks : List Block
blocks = processor (codes "0") ∷ processor (codes "1") ∷ []

processor-Nonempty : (n : Text) → processor n ≢ []
processor-Nonempty n = λ q. cc

blocks-AllBlocks : AllBlocks blocks
unfolding list_eq nat_eq strip lower
blocks-AllBlocks = (
  (processor-Nonempty (codes "0"), (refl, (refl, (refl, (refl, tt)))), refl),
  ((processor-Nonempty (codes "1"), (refl, (refl, (refl, (refl, tt)))), refl), tt),
)

blocks_from-print_blocks_example :
    (blocks_from [] (print_blocks blocks) ≡ map (λ b. map field_of b) blocks)
    × (blocks_from [] (print_blocks blocks ++ [] ∷ []) ≡ map (λ b. map field_of b) blocks)
blocks_from-print_blocks_example = blocks_from-print_blocks blocks blocks-AllBlocks

abbrev mounts : Text
mounts = codes "/dev/a / ext4 rw 0 0\n/dev/b /data xfs rw,noatime 0 0\nproc /proc proc rw 0 0\n"

abbrev resolve : Text → Option Names
resolve t =
    if t == codes "/"
    then some []
    else if t == codes "/data"
    then some (codes "data" ∷ [])
    else none

abbrev target : Names
target = codes "data" ∷ codes "raw" ∷ []

mount_for_path-IsLongest_example :
    IsLongest resolve target
      (mounts_of (splitlines mounts))
      (mount_for_path resolve target (some mounts))
mount_for_path-IsLongest_example = mount_for_path-IsLongest resolve target mounts

abbrev line : Text → ℕ → Option Text → Line
line step_id ms error = record {
  step_id = some step_id;
  wall_ms = some ms;
  engine_reported_ms = none;
  error = error;
  cold = false;
}

abbrev lines : List Line
lines =
    line (codes "q1") 3000 none
    ∷ line (codes "q2") 10 (some (codes "parse error\nat 1"))
    ∷ line (codes "q1") 5000 none
    ∷ line (codes "setup") 7 none
    ∷ []

lookup-load_engine_records_example :
    let (medians, s) = load_engine_records lines in
    (lookup (codes "q1") medians ≡ median (warm_times (codes "q1") lines))
    × (s.fail ≡ count_if is_failed lines)
    × (s.ok + s.fail ≡ count_if is_query lines)
lookup-load_engine_records_example = lookup-load_engine_records (codes "q1") lines

abbrev jsonl : Text → Option (List Line)
jsonl e = if e == codes "duckdb" then none else some lines

bench_tables-IsPage_example : IsPage jsonl (bench_tables jsonl)
bench_tables-IsPage_example = bench_tables-IsPage jsonl

abbrev writes : List Line
writes =
    line (codes "write_1") 3000 none
    ∷ line (codes "write_1") 5000 none
    ∷ line (codes "write_1") 9 (some (codes "timeout"))
    ∷ line (codes "w_setup") 7 none
    ∷ []

abbrev stats : WriteStats
stats = record {
  warm_median_ms = 400000;
  warm_min_ms = 3000;
  warm_max_ms = 5000;
  warm_p95_ms = 3000;
  cold_ms = none;
  first_error = some (codes "timeout");
  ok = 2;
  fail = 1;
}

engine_stats-Ranked_example :
    Ranked (warm_writes writes) stats × (stats.ok + stats.fail ≡ count_if is_write writes)
unfolding engine_stats nat_eq list_eq sorted
engine_stats-Ranked_example = engine_stats-Ranked writes stats refl
