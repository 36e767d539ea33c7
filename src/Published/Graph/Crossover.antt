-- ===== src/Published/Graph/Crossover.antt =====
-- The size from which the GPU wins, in reports/build_graph_gpu_report.py.
use delta_forge_benchmarks.Common.{
  ℕ, ◌≡◌, true, false, ◌&&◌, Option, none, some, List, contains, All, ltb, nat_eq,
}
use delta_forge_benchmarks.Published.Graph.Sections.{gpu_wins}

module _ (cpu_ms gpu_ms : ℕ → Option ℕ) where
  -- The least of the sizes at which the GPU wins, or none where it wins at none.
  abbrev pub IsLeastWin : List ℕ → Option ℕ → Type 0
  IsLeastWin ms none = All (λ n. gpu_wins cpu_ms gpu_ms n ≡ false) ms
  IsLeastWin ms (some m) =
      (contains ms m ≡ true)
      × (gpu_wins cpu_ms gpu_ms m ≡ true)
      × All (λ n. (gpu_wins cpu_ms gpu_ms n && ltb n m) ≡ false) ms
