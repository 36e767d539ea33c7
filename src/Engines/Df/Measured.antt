-- ===== src/Engines/Df/Measured.antt =====
-- What a step of the adapter of engines/df_engine.py that ends well has done and reports.
use delta_forge_benchmarks.Common.{
  ℕ, ◌≡◌, refl, sym, subst, ap, ◌∙◌, Bool, true, false, not, Option, none, some, List, [], ◌∷◌,
  ◌++◌,
}
use delta_forge_benchmarks.Common.Text.{Text, codes}
use delta_forge_benchmarks.Engines.Df.{split_sql_statements}
use delta_forge_benchmarks.Engines.Df.Reported.{told_ms, told_rows, walk_sql_told}
use delta_forge_benchmarks.Engines.Df.Step.{
  Cli, CompletedProcess, is_zero, failure_message, given, kind_text, stats_sql, or_zero, checked,
  checked_query, query_script, measure_query, report_query, keep_query, query_text, query_step,
  not_json, step_body, run_step,
}
use delta_forge_benchmarks.Engines.Df.Walk.{Reply, rows_of}
use delta_forge_benchmarks.Engines.Frame.{
  value_error, runtime_error, Frame, ok, Action, raise_if, ◌>>◌, ◌>>=◌, feed, pure, call, initial,
  make_result,
}
use delta_forge_benchmarks.Engines.Frame.Laws.{
  EndsWell, or_raise-EndsWell, bind-EndsWell, make_result-ok,
}
use delta_forge_benchmarks.Engines.Output.{try_parse_cli_json}
use delta_forge_benchmarks.Steps.{WorkloadStep, sql_query}

pub given_lem : (o : Option Text) (s : Text) → given o ≡ some s → o ≡ some s
given_lem none s h = cc
given_lem (some []) s h = cc
given_lem (some (c ∷ t)) s h = h

module _ {W : Type 0} (cli : Cli W) where
  -- The client was called with this text and ended with the exit code 0.
  abbrev pub Answered : Text → W → W → Text → Type 0
  Answered sql w w' stdout =
      (proc : CompletedProcess) × (cli.run_cli_query w sql ≡ (w', ok proc))
      × (is_zero proc.returncode ≡ true)
      × (proc.stdout ≡ stdout)

  checked-EndsWell :
      (proc : CompletedProcess) (f : Frame W)
      → EndsWell (checked cli proc f)
      → (is_zero proc.returncode ≡ true) × (checked cli proc f ≡ (ok proc.stdout, f))
  unfolding checked
  checked-EndsWell proc f h = by_code (is_zero proc.returncode) h
    where
      by_code :
          (b : Bool)
          → EndsWell
              ((raise_if (not b) (runtime_error (failure_message proc)) >> pure proc.stdout) f)
          → (b ≡ true)
            × ((raise_if (not b) (runtime_error (failure_message proc)) >> pure proc.stdout) f
                ≡ (ok proc.stdout, f))
      by_code true h = (refl, refl)
      by_code false (a, h) = cc

  pub checked_query-EndsWell :
      (sql : Text) (f : Frame W)
      → EndsWell (checked_query cli sql f)
      → (stdout : Text) × (w' : W) × Answered sql f.world w' stdout
        × (checked_query cli sql f ≡ (ok stdout, record f { world = w' }))
  unfolding checked_query
  checked_query-EndsWell sql f h =
      let (proc, f', called, rest) =
        bind-EndsWell (call (λ w. cli.run_cli_query w sql)) (checked cli) f h in
      let (zero, done) = checked-EndsWell proc f' (subst EndsWell rest h) in
      (
        proc.stdout,
        (cli.run_cli_query f.world sql).0,
        (proc, (λ i. ((cli.run_cli_query f.world sql).0, (called i).0)), zero, refl),
        rest ∙ done ∙ ap (λ (t : Frame W). (ok proc.stdout, t)) (sym (ap (λ t. t.1) called)),
      )

  -- The reply of the client to this text.
  abbrev pub Replied : Text → W → W → Reply → Type 0
  Replied sql w w' reply =
      (stdout : Text) × Answered sql w w' stdout
      × (try_parse_cli_json cli.loads stdout ≡ some reply)

  -- Behind a query that must be answered for the rest to end well.
  pub behind_answer :
      {B : Type 0} (sql : Text) (k : Text → Action W B) (f : Frame W)
      → EndsWell ((checked_query cli sql >>= k) f)
      → (stdout : Text) × (w' : W) × Answered sql f.world w' stdout
        × ((checked_query cli sql >>= k) f ≡ k stdout (record f { world = w' }))
  behind_answer sql k f h =
      let (out, f1, called, _) = bind-EndsWell (checked_query cli sql) k f h in
      let (stdout, w', answered, done) = checked_query-EndsWell sql f (out, ap (λ t. t.0) called) in
      (stdout, w', answered, ap (feed k) done)

  measure_query-EndsWell :
      (script : Text) (f : Frame W)
      → EndsWell (measure_query cli script f)
      → (reply : Reply) × (w' : W) × Replied script f.world w' reply
        × (measure_query cli script f ≡ (
          ok tt,
          record f {
            world = w';
            engine_reported_ms = told_ms (rows_of reply);
            rows_returned = some (or_zero (told_rows (rows_of reply)));
            result_sha = none;
          },
        ))
  unfolding measure_query report_query keep_query
  measure_query-EndsWell script f h =
      let (stdout, w', answered, on) = behind_answer script (report_query cli) f h in
      let f' = record f { world = w' } in
      let (reply, parsed, then_kept) =
        or_raise-EndsWell (try_parse_cli_json cli.loads stdout)
          (not_json cli "CLI did not return JSON for SHOW STATS" stdout) (keep_query cli) f'
          (subst EndsWell on h) in
      (
        reply,
        w',
        (stdout, answered, parsed),
        on
            ∙ then_kept
            ∙ ap
                (λ (t : Option ℕ × Option ℕ). (
                  ok tt,
                  record f {
                    world = w';
                    engine_reported_ms = t.0;
                    rows_returned = some (or_zero t.1);
                    result_sha = none;
                  },
                ))
                (walk_sql_told (rows_of reply)),
      )

  query_text-EndsWell :
      (step : WorkloadStep) (sql : Text) (f : Frame W)
      → EndsWell (query_text cli step sql f)
      → (p : Text) × (ps : List Text) × (split_sql_statements sql ≡ p ∷ ps)
        × (query_text cli step sql f ≡ measure_query cli (stats_sql p ps) f)
  unfolding query_text query_script
  query_text-EndsWell step sql f h = by_list (split_sql_statements sql) refl h
    where
      script : List Text → Action W Text
      script = query_script cli step

      by_list :
          (l : List Text)
          → split_sql_statements sql ≡ l
          → EndsWell (feed (measure_query cli) (script l f))
          → (p : Text) × (ps : List Text) × (split_sql_statements sql ≡ p ∷ ps)
            × (feed (measure_query cli) (script (split_sql_statements sql) f)
                ≡ measure_query cli (stats_sql p ps) f)
      by_list [] e (a, h) = cc
      by_list (p ∷ ps) e h = (p, ps, e, ap (λ l. feed (measure_query cli) (script l f)) e)

  -- An SQL query that ends with the exit code 0: its script has statements, the client was called once,
  -- with these statements, the last behind SHOW STATS ACTUAL, and it answered; the step reports the last
  -- readable time of the reply, and its last readable number of rows, or 0.
  pub run_step_measured :
      (found : Bool) (w : W) (step : WorkloadStep)
      → step.kind ≡ sql_query
      → (run_step cli found w step).1.exit_code ≡ 0
      → let (w', r) = run_step cli found w step in
        (sql : Text) × (p : Text) × (ps : List Text) × (reply : Reply) × (step.sql ≡ some sql)
        × (split_sql_statements sql ≡ p ∷ ps)
        × Replied (stats_sql p ps) w w' reply
        × (r.engine_reported_ms ≡ told_ms (rows_of reply))
        × (r.rows_returned ≡ some (or_zero (told_rows (rows_of reply))))
  unfolding run_step make_result step_body query_step
  run_step_measured found w step kind h =
      let start = initial cli.machine w in
      let as_query = ap (λ k. step_body cli step k start) kind in
      let well = make_result-ok cli.machine step w found (step_body cli step step.kind start) h in
      let (sql, has_sql, one) =
        or_raise-EndsWell (given step.sql)
          (value_error (kind_text step.kind ++ codes " step requires query text"))
          (query_text cli step) start (subst EndsWell as_query well) in
      let e1 = as_query ∙ one in
      let (p, ps, split, two) = query_text-EndsWell step sql start (subst EndsWell e1 well) in
      let e2 = e1 ∙ two in
      let (reply, w', replied, three) =
        measure_query-EndsWell (stats_sql p ps) start (subst EndsWell e2 well) in
      let e3 = e2 ∙ three in
      (
        sql,
        p,
        ps,
        reply,
        given_lem step.sql sql has_sql,
        split,
        subst (λ v. Replied (stats_sql p ps) w v reply) (sym (ap (λ t. t.1.world) e3)) replied,
        ap (λ t. t.1.engine_reported_ms) e3,
        ap (λ t. t.1.rows_returned) e3,
      )
