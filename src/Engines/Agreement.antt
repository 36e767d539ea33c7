-- ===== src/Engines/Agreement.antt =====
-- The DuckDB and the Spark adapters on one query with the same rows.
use mathlib.Core.List.{Perm}
use mathlib.Core.List.Perm
use delta_forge_benchmarks.Common.{
  ◌≡◌, refl, sym, ap, ◌∙◌, Bool, true, Option, none, some, String, List, length,
}
use delta_forge_benchmarks.Common.Text.{Text, codes}
use delta_forge_benchmarks.Engines.Df.Step.{given}
use delta_forge_benchmarks.Engines.Duckdb.{Connection, digest_if, fetch_step}
use delta_forge_benchmarks.Engines.Duckdb
use delta_forge_benchmarks.Engines.Frame.{value_error, Frame, Result, ok, initial, make_result}
use delta_forge_benchmarks.Engines.Frame.Laws.{or_raise-some, call_ok}
use delta_forge_benchmarks.Engines.Spark.{Session, Collected, query_ms, query_step}
use delta_forge_benchmarks.Engines.Spark
use delta_forge_benchmarks.Steps.{WorkloadStep, sql_query}
use delta_forge_benchmarks.Workloads.Digest.{Cell, hash_result_rows}
use delta_forge_benchmarks.Workloads.Digest.Laws.{hash_result_rows-eq_of_perm}

fetch_step_lem :
    {W : Type 0} (conn : Connection W) (step : WorkloadStep) (f : Frame W) (sql : Text)
    (rows : List (List Cell))
    → given step.sql ≡ some sql
    → (conn.execute f.world sql).1 ≡ ok tt
    → (conn.fetchall (conn.execute f.world sql).0).1 ≡ ok rows
    → fetch_step conn step f ≡ (
      ok tt,
      record f {
        world = (conn.fetchall (conn.execute f.world sql).0).0;
        rows_returned = some (length rows);
        result_sha = digest_if conn.sha256 step.expects_rows rows f.result_sha;
      },
    )
unfolding fetch_step
fetch_step_lem conn step f sql rows has_sql executed fetched =
    or_raise-some (given step.sql) (value_error (codes "SQL_QUERY requires sql")) _ f sql has_sql
    ∙ call_ok (λ w. conn.execute w sql) _ f tt executed
    ∙ call_ok conn.fetchall _ (record f { world = (conn.execute f.world sql).0 }) rows fetched

query_step_lem :
    {W : Type 0} (session : Session W) (step : WorkloadStep) (f : Frame W) (sql : Text)
    (df : Collected)
    → given step.sql ≡ some sql
    → (session.collect f.world sql).1 ≡ ok df
    → query_step session step f ≡ (
      ok tt,
      record f {
        world = (session.collect f.world sql).0;
        rows_returned = some (length df.rows);
        result_sha = digest_if session.sha256 step.expects_rows df.rows f.result_sha;
        engine_reported_ms = query_ms session df.phases f.engine_reported_ms;
      },
    )
unfolding query_step
query_step_lem session step f sql df has_sql collected =
    or_raise-some (given step.sql) (value_error (codes "SQL_QUERY requires sql")) _ f sql has_sql
    ∙ call_ok (λ w. session.collect w sql) _ f df collected

digest_if-true :
    (sha256 : Text → String) (b : Bool) (rows : List (List Cell)) (old : Option String)
    → b ≡ true
    → digest_if sha256 b rows old ≡ some (hash_result_rows sha256 rows).0
digest_if-true sha256 b rows old h =
    ap (λ b. digest_if sha256 b rows old) h ∙ (unfold digest_if in refl)

-- A query step that expects rows, run by DuckDB and by Spark with one digest function, where no call
-- raises and the rows are the same up to order: both results have the exit code 0, the number of the
-- rows, and one digest, that of the rows.
pub duckdb_agrees_with_spark :
    {V W : Type 0} (conn : Connection V) (session : Session W) (step : WorkloadStep) (sql : Text)
    (v : V) (w : W) (rows : List (List Cell)) (df : Collected)
    → step.kind ≡ sql_query
    → step.expects_rows ≡ true
    → given step.sql ≡ some sql
    → conn.sha256 ≡ session.sha256
    → (conn.execute v sql).1 ≡ ok tt
    → (conn.fetchall (conn.execute v sql).0).1 ≡ ok rows
    → (session.collect w sql).1 ≡ ok df
    → Perm rows df.rows
    → let d = (Duckdb.run_step conn true true v step).1 in
      let s = (Spark.run_step session true true w step).1 in
      (d.exit_code ≡ 0)
      × (s.exit_code ≡ 0)
      × (d.rows_returned ≡ some (length rows))
      × (s.rows_returned ≡ d.rows_returned)
      × (d.result_sha256 ≡ some (hash_result_rows conn.sha256 rows).0)
      × (s.result_sha256 ≡ d.result_sha256)
unfolding Duckdb.run_step Duckdb.step_body Spark.run_step Spark.step_body make_result
duckdb_agrees_with_spark {V} {W} conn session step sql v w rows df kind expects has_sql same
      executed fetched collected perm =
    let f = initial conn.machine v in
    let g = initial session.machine w in
    let d =
      ap (λ k. Duckdb.step_body conn step k f) kind
      ∙ fetch_step_lem conn step f sql rows has_sql executed fetched in
    let s =
      ap (λ k. Spark.step_body session step k g) kind
      ∙ query_step_lem session step g sql df has_sql collected in
    let by_rows = hash_result_rows-eq_of_perm conn.sha256 rows df.rows perm in
    let (_, counted) =
      hash_result_rows-eq_of_perm conn.sha256 df.rows df.rows (Perm.refl df.rows) in
    let count : length df.rows ≡ length rows =
      sym counted ∙ sym (ap (λ t. t.1) by_rows.0) ∙ by_rows.1 in
    let of_d = λ (t : Result Unit × Frame V). (make_result conn.machine step v true t).1 in
    let of_s = λ (t : Result Unit × Frame W). (make_result session.machine step w true t).1 in
    let d_rows = ap (λ t. (of_d t).rows_returned) d in
    let d_sha =
      ap (λ t. (of_d t).result_sha256) d
      ∙ digest_if-true conn.sha256 step.expects_rows rows none expects in
    let s_sha =
      ap (λ t. (of_s t).result_sha256) s
      ∙ digest_if-true session.sha256 step.expects_rows df.rows none expects in
    (
      ap (λ t. (of_d t).exit_code) d,
      ap (λ t. (of_s t).exit_code) s,
      d_rows,
      ap (λ t. (of_s t).rows_returned) s ∙ ap some count ∙ sym d_rows,
      d_sha,
      s_sha
          ∙ ap (λ h. some (hash_result_rows h df.rows).0) (sym same)
          ∙ ap (λ t. some t.0) (sym by_rows.0)
          ∙ sym d_sha,
    )
