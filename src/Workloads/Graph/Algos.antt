-- ===== src/Workloads/Graph/Algos.antt =====
-- The sizes, the number of warm runs and `ALGOS` of workloads/graph_gpu_vs_cpu.py.
use Prim.Native.Nat.{max}
use delta_forge_benchmarks.Common.{
  ℕ, Option, none, some, List, [], ◌∷◌, ◌++◌, if◌then◌else◌, ◌==◌, nat_eq, list_eq,
}
use delta_forge_benchmarks.Common.Text.{Text, codes}
use delta_forge_benchmarks.Common.Words.{split_commas}
use delta_forge_benchmarks.Curve.Streams.{number}
use delta_forge_benchmarks.Purge.{strip}

abbrev whole : Option (ℕ × Text) → Option ℕ
whole (some (n, [])) = some n
whole _ = none

-- `int(s)` of plain digits; none where it raises
unfoldable pub int_of : Text → Option ℕ
unfolding number
int_of s = whole (number s)

abbrev add_size : Option ℕ → Option (List ℕ) → Option (List ℕ)
add_size (some n) (some ns) = some (n ∷ ns)
add_size _ _ = none

-- The loop over the parts; none where `int` raises.
unfoldable pub sizes_from : List Text → Option (List ℕ)
unfolding int_of strip
sizes_from [] = some []
sizes_from (tok ∷ toks) =
    let rest = sizes_from toks in
    let t = strip tok in if t == [] then rest else add_size (int_of t) rest

abbrev some_sizes : Option (List ℕ) → Option (List ℕ)
some_sizes (some (n ∷ ns)) = some (n ∷ ns)
some_sizes _ = none

-- `_sizes`; none where it raises
unfoldable pub sizes : Option Text → Option (List ℕ)
unfolding sizes_from split_commas
sizes none = some_sizes (sizes_from (split_commas (codes "1,5,10,30")))
sizes (some raw) = some_sizes (sizes_from (split_commas raw))

-- `_warm_runs`; none where it raises
unfoldable pub warm_runs : Option Text → Option ℕ
unfolding int_of strip
warm_runs none = some 3
warm_runs (some raw) = elim (int_of (strip raw)) [ none ↦ none | some n ↦ some (max 1 n) ]

pub data Klass : Type 0 where
  memory_bound compute_bound : Klass

pub record Algo : Type 0 where
  pub key : Text
  pub label : Text
  pub call : Text
  pub klass : Klass

-- `ALGOS`
abbrev pub algos : List Algo
algos =
    record {
      key = codes "pagerank_i5";
      label = codes "PageRank (5 iter)";
      call =
          codes "CALL algo.pageRank({dampingFactor: 0.85, iterations: 5}) YIELD "
          ++ codes "node_id, score, rank RETURN node_id, score, rank ORDER BY score DESC "
          ++ codes "LIMIT 25";
      klass = memory_bound;
    }
    ∷ record {
      key = codes "pagerank_i50";
      label = codes "PageRank (50 iter)";
      call =
          codes "CALL algo.pageRank({dampingFactor: 0.85, iterations: 50}) YIELD "
          ++ codes "node_id, score, rank RETURN node_id, score, rank ORDER BY score DESC "
          ++ codes "LIMIT 25";
      klass = compute_bound;
    }
    ∷ record {
      key = codes "wcc";
      label = codes "Connected Components";
      call =
          codes "CALL algo.connectedComponents() YIELD node_id, component_id RETURN "
          ++ codes "component_id, count(*) AS sz ORDER BY sz DESC LIMIT 25";
      klass = memory_bound;
    }
    ∷ record {
      key = codes "louvain";
      label = codes "Louvain";
      call =
          codes "CALL algo.louvain({resolution: 1.0}) YIELD node_id, community_id "
          ++ codes "RETURN community_id, count(*) AS sz ORDER BY sz DESC LIMIT 25";
      klass = memory_bound;
    }
    ∷ record {
      key = codes "triangles";
      label = codes "Triangle Count";
      call =
          codes "CALL algo.triangleCount() YIELD node_id, triangle_count RETURN "
          ++ codes "node_id, triangle_count ORDER BY triangle_count DESC LIMIT 25";
      klass = compute_bound;
    }
    ∷ record {
      key = codes "betweenness";
      label = codes "Betweenness (sampled 128)";
      call =
          codes "CALL algo.betweenness({samplingSize: 128}) YIELD node_id, centrality, "
          ++ codes "rank RETURN node_id, centrality, rank ORDER BY centrality DESC LIMIT "
          ++ codes "25";
      klass = compute_bound;
    }
    ∷ []
