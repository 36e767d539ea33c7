-- ===== src/Workloads/Graph/Scripts.antt =====
-- The scripts of workloads/graph_gpu_vs_cpu.py that build and drop a graph.
use delta_forge_benchmarks.Common.{ℕ, ◌*◌, ◌/◌, List, [], ◌∷◌, ◌++◌, nat_eq, list_eq}
use delta_forge_benchmarks.Common.Text.{Text, codes, show}
use delta_forge_benchmarks.Host.Short.{join_with}

abbrev pub zone : Text
zone = codes "graph_bench"

abbrev pub root : Text
root = codes "{data_dir}/graph_bench"

abbrev pub nodes_of : ℕ → Text
nodes_of m = zone ++ codes ".g" ++ show m ++ codes "m.nodes"

abbrev pub edges_of : ℕ → Text
edges_of m = zone ++ codes ".g" ++ show m ++ codes "m.edges"

abbrev pub graph_of : ℕ → Text
graph_of m = zone ++ codes ".g" ++ show m ++ codes "m.g"

-- `_node_insert_sql`
unfoldable pub node_insert_sql : Text → ℕ → Text
unfolding show
node_insert_sql nodes n =
    codes "INSERT INTO "
    ++ nodes
    ++ codes "\nSELECT id, first_name || ' ' || last_name AS name, grp\nFROM df_generate_table("
    ++ show n
    ++ codes ", '[\n  {\"type\":\"row_index\",\"name\":\"id\",\"start\":1},\n  "
    ++ codes "{\"type\":\"fake\",\"name\":\"first_name\",\"kind\":\"first_name\",\"seed\":7},\n  "
    ++ codes "{\"type\":\"fake\",\"name\":\"last_name\",\"kind\":\"last_name\",\"seed\":8},\n  "
    ++ codes
        "{\"type\":\"cyclic_lookup\",\"name\":\"grp\",\"values\":[\"A\",\"B\",\"C\",\"D\",\"E\",\"F\",\"G\",\"H\"]}\n]')"

-- `_stride_batch_sql`
unfoldable pub stride_batch_sql : Text → ℕ → ℕ → ℕ → Text
unfolding show
stride_batch_sql edges n stride id_off =
    codes "INSERT INTO "
    ++ edges
    ++ codes "\nSELECT id, src, dst,\n  ROUND(0.5 + 0.5*((CAST(src*7 + dst*13 AS "
    ++ codes "DOUBLE)*0.618033988749895) % 1.0), 3) AS weight,\n  CASE (CAST(src + dst AS BIGINT) "
    ++ codes "% 4) WHEN 0 THEN 'wire' WHEN 1 THEN 'ach' WHEN 2 THEN 'card' ELSE 'debit' END AS "
    ++ codes "etype\nFROM (\n  SELECT "
    ++ show id_off
    ++ codes " + gs AS id, ((gs - 1) % "
    ++ show n
    ++ codes ") + 1 AS src, (((gs - 1) + "
    ++ show stride
    ++ codes ") % "
    ++ show n
    ++ codes ") + 1 AS dst\n  FROM generate_series(1, "
    ++ show n
    ++ codes ") AS t(gs)\n) sub\nWHERE src <> dst"

-- `_hub_batch_sql`
unfoldable pub hub_batch_sql : Text → ℕ → Text
unfolding show
hub_batch_sql edges n =
    codes "INSERT INTO "
    ++ edges
    ++ codes "\nSELECT id, src, dst,\n  ROUND(0.4 + 0.5*((CAST(src*31 + dst*37 AS "
    ++ codes "DOUBLE)*0.618033988749895) % 1.0), 3) AS weight,\n  'hub' AS etype\nFROM (\n  SELECT "
    ++ show (4 * n)
    ++ codes " + ((h - 1) * 50 + k) AS id, (h * 1000) AS src, (((h * 1000 - 1) + k * 7) % "
    ++ show n
    ++ codes ") + 1 AS dst\n  FROM (SELECT gs AS h FROM generate_series(1, "
    ++ show (n / 1000)
    ++ codes ") AS t(gs)) hh\n  CROSS JOIN (SELECT gs AS k FROM generate_series(1, 50) AS t(gs)) "
    ++ codes "kk\n) sub\nWHERE src <> dst AND src BETWEEN 1 AND "
    ++ show n
    ++ codes " AND dst BETWEEN 1 AND "
    ++ show n

-- `_random_batch_sql`
unfoldable pub random_batch_sql : Text → ℕ → Text
unfolding show
random_batch_sql edges n =
    codes "INSERT INTO "
    ++ edges
    ++ codes "\nSELECT id, src, dst,\n  ROUND(0.05 + 0.2*((CAST(src*43 + dst*47 AS "
    ++ codes "DOUBLE)*0.618033988749895) % 1.0), 3) AS weight,\n  'p2p' AS etype\nFROM (\n  SELECT "
    ++ show (5 * n)
    ++ codes " + i AS id, ((i * 104729 + 56891) % "
    ++ show n
    ++ codes ") + 1 AS src, ((i * 224737 + 31547) % "
    ++ show n
    ++ codes ") + 1 AS dst\n  FROM generate_series(1, "
    ++ show (n / 2)
    ++ codes ") AS t(i)\n) sub\nWHERE src <> dst"

-- `";\n".join(parts) + ";\n"`
abbrev pub script : List Text → Text
script parts = join_with (59 ∷ 10 ∷ []) parts ++ 59 ∷ 10 ∷ []

-- `_setup_sql`
unfoldable pub setup_parts : ℕ → List Text
unfolding node_insert_sql stride_batch_sql hub_batch_sql random_batch_sql
setup_parts m =
    let n = m * 1000000 in
    let schema = codes "g" ++ show m ++ codes "m" in
    let nodes = nodes_of m in
    let edges = edges_of m in
    let g = graph_of m in
    (codes "CREATE SCHEMA IF NOT EXISTS " ++ zone ++ codes "." ++ schema)
    ∷ (codes "DROP DELTA TABLE IF EXISTS " ++ edges ++ codes " WITH FILES")
    ∷ (codes "DROP DELTA TABLE IF EXISTS " ++ nodes ++ codes " WITH FILES")
    ∷ (codes "CREATE DELTA TABLE "
        ++ nodes
        ++ codes " (id BIGINT, name STRING, grp STRING) LOCATION '"
        ++ root
        ++ codes "/"
        ++ schema
        ++ codes "/nodes'")
    ∷ (codes "CREATE DELTA TABLE "
        ++ edges
        ++ codes " (id BIGINT, src BIGINT, dst BIGINT, weight DOUBLE, etype STRING) LOCATION '"
        ++ root
        ++ codes "/"
        ++ schema
        ++ codes "/edges'")
    ∷ node_insert_sql nodes n
    ∷ stride_batch_sql edges n 20 0
    ∷ stride_batch_sql edges n 40 n
    ∷ stride_batch_sql edges n 200 (2 * n)
    ∷ stride_batch_sql edges n 21 (3 * n)
    ∷ hub_batch_sql edges n
    ∷ random_batch_sql edges n
    ∷ (codes "OPTIMIZE " ++ edges ++ codes " ZORDER BY (src, dst)")
    ∷ (codes "OPTIMIZE " ++ nodes ++ codes " ZORDER BY (id)")
    ∷ (codes "CREATE GRAPH IF NOT EXISTS "
        ++ g
        ++ codes " VERTEX TABLE "
        ++ nodes
        ++ codes " ID COLUMN id NODE TYPE COLUMN grp NODE NAME COLUMN name EDGE TABLE "
        ++ edges
        ++ codes
            " SOURCE COLUMN src TARGET COLUMN dst WEIGHT COLUMN weight EDGE TYPE COLUMN etype DIRECTED")
    ∷ (codes "CREATE GRAPHCSR " ++ g)
    ∷ (codes "CREATE GRAPHGPU " ++ g)
    ∷ []

unfoldable pub setup_sql : ℕ → Text
unfolding setup_parts
setup_sql m = script (setup_parts m)

-- `_cleanup_sql`
unfoldable pub cleanup_sql : ℕ → Text
unfolding show
cleanup_sql m = script (
    (codes "DROP GRAPH IF EXISTS " ++ graph_of m)
    ∷ (codes "DROP DELTA TABLE IF EXISTS " ++ edges_of m ++ codes " WITH FILES")
    ∷ (codes "DROP DELTA TABLE IF EXISTS " ++ nodes_of m ++ codes " WITH FILES")
    ∷ [])
