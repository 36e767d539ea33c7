-- ===== src/Lib.antt =====
-- The benchmark harness of DeltaForge: a model of its runner, of its reports and of the parts they share,
-- with the theorems that state what they are relied on for.
--
-- The parts and how they interact. `bench_runner.py` selects workloads and engines (Runner/Select, or the
-- menu, Runner/Menu), stages the data (Runner/Data), checks the host (Runner/Preflight), and starts one
-- child process for each engine. A child (Runner/Session) starts its engine, fills the catalog and calls
-- `run_workload` (Runner/Run) for each workload; each step is resolved first (Runner/Resolve), and a cold
-- run is preceded by a purge (Purge, of engines/_purge.py). Every run of a measured step is appended to
-- the engine's line file at once. The parent merges what the children leave (Runner/Merge). The queries
-- that a workload gives the DeltaForge engine are rewritten by workloads/_df_catalog.py (Catalog). An
-- adapter carries a step out: that of DeltaForge calls the command line client for each statement of a
-- script, or once for a query behind SHOW STATS, and reads the time and the number of rows out of the
-- reply (Engines/Df, Engines/Output); those of DuckDB and Spark fetch the rows and take their digest
-- (Engines/Duckdb, Engines/Spark). A thread samples the memory and the processor time of the engine
-- meanwhile (Engines/Metrics). Results are compared by the digest of workloads/spec.py
-- (Workloads/Digest); its registry of workloads is Workloads/Discover. What the host is, a run notes by
-- engines/host_facts.py (Host). `reports/generate_report.py` groups the lines into cells and checks that
-- the engines agree (Report). `scale_out/aggregate.py` reads the line files of the streams of a scale-out
-- run and makes the curve of a query's latency against the number of streams (Curve). Both compute
-- percentiles (Stats). `reports/build_published.py` makes the published pages from the same line files,
-- and `reports/build_graph_gpu_report.py` the page of the graph workload, whose step ids it takes apart
-- again (Published, Published/Graph, Workloads/Graph).
--
-- Files and sources.
--   Steps, Steps/Workload       engines/base.py (WorkloadStep, StepResult, ...) and `Workload`
--   Runner/Resolve              `resolve_step`
--   Runner/Run                  `run_workload`; its loops are `run_setup`, `run_measured`, `run_cleanup`
--   Runner/Select               the selection in `cmd_run`
--   Runner/Preflight            `preflight` and the test on its issues
--   Runner/Menu                 `_ask` and `run_menu`
--   Runner/Data                 the staging of data: `_ensure_delta_fixtures` and the check in `cmd_run`
--   Runner/Session              the loop body of the child in `cmd_run`
--   Runner/Merge                the parent in `cmd_run`
--   Purge                       engines/_purge.py
--   Engines/Frame               the body of `run_step` as an action: local variables and exceptions
--   Engines/Metrics             `MetricSampler` of engines/_metrics.py
--   Engines/Output              `_scrape_dml_ms`, `_stats_num`, `_try_parse_cli_json` of engines/df_engine.py
--   Engines/Df                  `_split_sql_statements`; in Df/Walk the loops over the stats rows
--   Engines/Df/Step             `run_step`, a definition for each of its branches
--   Engines/Df/Start, Engine    `__init__`, `start`, `_locate_worker_pid`; the adapter as an engine of a session
--   Engines/Duckdb, Spark       `run_step` of engines/duckdb_engine.py and engines/spark_default_engine.py
--   Host/Cpu, Memory, Mount     `_parse_cpuinfo`, `_cpufreq_facts`, `memory_facts`, `_mount_for_path`
--   Host/Cgroup, System, Short  `cgroup_limits`, os, Java and virtualization facts, `render_short`
--   Published/Medians           `load_engine_records` of reports/build_published.py
--   Published/Format, Tables    `speedup`, `fmt_ms`, `render_table`; the tables of `render_bench_md`
--   Published/Writes            the statistics and the tables of `render_write_md`
--   Published/Graph             `_STEP_RE`, `load_df_records` and the sections of build_graph_gpu_report.py
--   Workloads/Graph             workloads/graph_gpu_vs_cpu.py
--   Catalog/Token, Qualify      `_TOKEN`, `df_register_setup` and `df_qualify`
--   Catalog/Clause, Stack       the words of a query that name tables, told from the tokens around them
--   Workloads/Digest, Discover  `hash_result_rows` and `discover`
--   Stats/Percentile            the two functions `percentile`, and `statistics.median`
--   Report, Report/Tables       `CellStats`, `cellize`, `correctness_check`; the summary, the tables, `main`
--   Curve/Streams               `parse_stream_dir`
--   Curve/Timings               `load_query_timings`
--   Curve/Rows                  `aggregate`
--   Curve/Verdict               what `write_json` and `write_md` count and list
--   Curve/Main                  `main` of the aggregator
--   Common                      names of the libraries, tests, dicts, sorting, texts
--   Examples                    concrete runs
--
-- How state is modelled. A run passes a `RunState` along: the state of the world, the lines of the file
-- and the records that the function returns. What an engine, the purge, the clock, the sockets and the
-- file system do is an argument: `Host`, `Engine`, `Surroundings`, `Files`, `DirEntry`; the command line
-- client, the connection and the session of the adapters are `Cli`, `Connection` and `Session`, over any
-- state. In an adapter's step an exception is the `err` of an action, and the local variables that were
-- written before it keep their values in the `Frame`; outside of an adapter it is `raised`, and the way a
-- run ends is an `Ending`. What the reader of a stats row takes for a number is a plain decimal with up
-- to three digits behind the point: a sign, an exponent, `inf`, `nan` and underscores, which `float`
-- takes too, are not read. Timings are whole microseconds; interpolated statistics are in hundredths of
-- that, ratios in thousandths, and a NaN is `none`. Arithmetic is exact where the program uses binary
-- floats. Texts that are walked are lists of code points, of ASCII; names are strings. Dicts are
-- association lists in insertion order.
--
-- Recursion is on the structure of lists. There are three uses of fuel: `show` and `grouped` have a round
-- more than the number, each of which drops a digit or three; the tokens of a query have a round for each
-- character, each of which takes one at least; and the wait of `start` has as many rounds as it is given,
-- 121 of which last longer than its two minutes, since each pauses for a second.
--
-- Not modelled: what DeltaForge, DuckDB and Spark do in a call, the opening of their sessions, lscpu, the
-- disk probe and the package versions among the host facts, the running text of pages, the decoding and
-- the layout of files, printing, the argument parsers, and the standard deviation, which needs square
-- roots.
pub mod Catalog
pub mod Common
pub mod Curve
pub mod Engines
pub mod Examples
pub mod Host
pub mod Published
pub mod Purge
pub mod Report
pub mod Runner
pub mod Stats
pub mod Steps
pub mod Workloads
