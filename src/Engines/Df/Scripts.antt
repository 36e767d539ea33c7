-- ===== src/Engines/Df/Scripts.antt =====
-- The scripts of `run_step` in engines/df_engine.py: one call of the client for each statement.
use delta_forge_benchmarks.Common.{
  ℕ, ◌+◌, ◌≡◌, refl, sym, subst, ap, ◌∙◌, Bool, true, false, ◌||◌, Option, none, some, List, [],
  ◌∷◌, ◌++◌, arith, if◌then◌else◌,
}
use delta_forge_benchmarks.Common.Text.{Text, codes}
use delta_forge_benchmarks.Engines.Df.{split_sql_statements}
use delta_forge_benchmarks.Engines.Df.Measured.{Answered, behind_answer, given_lem}
use delta_forge_benchmarks.Engines.Df.Step.{
  Cli, given, kind_text, is_empty, is_some, add_known, statement_ms, run_statements, report_script,
  script_text, script_step, step_body, run_step,
}
use delta_forge_benchmarks.Engines.Frame.{
  value_error, Frame, ok, Action, raise_if, ◌>>=◌, feed, initial, make_result,
}
use delta_forge_benchmarks.Engines.Frame.Laws.{
  EndsWell, or_raise-EndsWell, bind-EndsWell, raise_if-EndsWell, make_result-ok,
}
use delta_forge_benchmarks.Steps.{
  StepKind, sql_query, sql_dml, sql_ddl, maintenance, python, cypher_query, cypher_dml,
  WorkloadStep,
}

abbrev pub is_script : StepKind → Bool
is_script sql_ddl = true
is_script sql_dml = true
is_script maintenance = true
is_script cypher_dml = true
is_script sql_query = false
is_script python = false
is_script cypher_query = false

module _ {W : Type 0} (cli : Cli W) where
  -- The client answered these texts one after the other. They told so many milliseconds together; the
  -- flag says whether any told a time.
  abbrev pub AllAnswered : List Text → W → W → ℕ → Bool → Type 0
  AllAnswered [] w w' ms told = (w' ≡ w) × (ms ≡ 0) × (told ≡ false)
  AllAnswered (sql ∷ sqls) w w' ms told =
      (stdout : Text) × (between : W) × (rest : ℕ) × (later : Bool) × Answered cli sql w between
        stdout
      × AllAnswered sqls between w' rest later
      × (ms ≡ add_known 0 (statement_ms cli stdout) + rest)
      × (told ≡ (is_some (statement_ms cli stdout) || later))

  add_known_sum :
      (summed : ℕ) (o : Option ℕ) (rest : ℕ)
      → add_known summed o + rest ≡ summed + (add_known 0 o + rest)
  add_known_sum summed none rest = omega arith
  add_known_sum summed (some n) rest = omega arith

  or_assoc : (a b c : Bool) → ((a || b) || c) ≡ (a || (b || c))
  or_assoc a b c = ground arith

  plus_zero : (n : ℕ) → n ≡ n + 0
  plus_zero n = omega arith

  zero_plus : (n : ℕ) → 0 + n ≡ n
  zero_plus n = omega arith

  or_false_right : (b : Bool) → b ≡ (b || false)
  or_false_right b = ground arith

  run_statements-EndsWell :
      (sqls : List Text) (summed : ℕ) (saw : Bool) (f : Frame W)
      → EndsWell (run_statements cli sqls summed saw f)
      → (w' : W) × (ms : ℕ) × (told : Bool) × AllAnswered sqls f.world w' ms told
        × (run_statements cli sqls summed saw f
            ≡ (ok (summed + ms, saw || told), record f { world = w' }))
  unfolding run_statements
  run_statements-EndsWell [] summed saw f h = (
    f.world,
    0,
    false,
    (refl, refl, refl),
    (λ i. (ok (plus_zero summed i, or_false_right saw i), f)),
  )
  run_statements-EndsWell (sql ∷ sqls) summed saw f h =
      let (stdout, between, answered, one) =
        behind_answer cli sql
          (λ stdout.
            run_statements cli sqls (add_known summed (statement_ms cli stdout))
              (saw || is_some (statement_ms cli stdout)))
          f h in
      let o = statement_ms cli stdout in
      let (w', ms, told, all, two) =
        run_statements-EndsWell sqls (add_known summed o) (saw || is_some o)
          (record f { world = between }) (subst EndsWell one h) in
      (
        w',
        add_known 0 o + ms,
        is_some o || told,
        (stdout, between, ms, told, answered, all, refl, refl),
        one ∙ two ∙ (λ i. (
          ok (add_known_sum summed o ms i, or_assoc saw (is_some o) told i),
          record f { world = w' },
        )),
      )

  body_of :
      (step : WorkloadStep) (kind : StepKind)
      → is_script kind ≡ true
      → step_body cli step kind ≡ script_step cli step
  unfolding step_body
  body_of step sql_ddl h = refl
  body_of step sql_dml h = refl
  body_of step maintenance h = refl
  body_of step cypher_dml h = refl
  body_of step sql_query h = cc
  body_of step python h = cc
  body_of step cypher_query h = cc

  script_text-EndsWell :
      (step : WorkloadStep) (sql : Text) (f : Frame W)
      → EndsWell (script_text cli step sql f)
      → (w' : W) × (ms : ℕ) × (told : Bool) × (is_empty (split_sql_statements sql) ≡ false)
        × AllAnswered (split_sql_statements sql) f.world w' ms told
        × (script_text cli step sql f ≡ report_script cli (ms, told) (record f { world = w' }))
  unfolding script_text
  script_text-EndsWell step sql f h =
      let sqls = split_sql_statements sql in
      let fault = value_error (kind_text step.kind ++ codes " step has no statements") in
      let run : Action W (Unit {0}) = run_statements cli sqls 0 false >>= report_script cli in
      let (u, f1, guarded, zero) = bind-EndsWell (raise_if (is_empty sqls) fault) (λ _. run) f h in
      let (some_sql, passed) =
        raise_if-EndsWell (is_empty sqls) fault f (u, ap (λ t. t.0) guarded) in
      let e1 = ap (feed (λ _. run)) passed in
      let (t, f2, ran, _) =
        bind-EndsWell (run_statements cli sqls 0 false) (report_script cli) f
          (subst EndsWell e1 h) in
      let (w', ms, told, all, done) =
        run_statements-EndsWell sqls 0 false f (t, ap (λ t. t.0) ran) in
      (
        w',
        ms,
        told,
        some_sql,
        all,
        e1
            ∙ ap (feed (report_script cli)) done
            ∙ ap (λ n. report_script cli (n, told) (record f { world = w' })) (zero_plus ms),
      )

  -- A script (DDL, DML, maintenance, or Cypher DML) that ends with the exit code 0: it has statements,
  -- the client answered all of them one after the other, each in the state that the one before it left,
  -- and the step reports the sum of the times that they told, or none where none told any.
  pub run_step_script :
      (found : Bool) (w : W) (step : WorkloadStep)
      → is_script step.kind ≡ true
      → (run_step cli found w step).1.exit_code ≡ 0
      → let (w', r) = run_step cli found w step in
        (sql : Text) × (ms : ℕ) × (told : Bool) × (step.sql ≡ some sql)
        × (is_empty (split_sql_statements sql) ≡ false)
        × AllAnswered (split_sql_statements sql) w w' ms told
        × (r.engine_reported_ms ≡ (if told then some ms else none))
  unfolding run_step make_result script_step report_script
  run_step_script found w step kind h =
      let start = initial cli.machine w in
      let as_script = ap (λ g. g start) (body_of step step.kind kind) in
      let well = make_result-ok cli.machine step w found (step_body cli step step.kind start) h in
      let (sql, has_sql, one) =
        or_raise-EndsWell (given step.sql)
          (value_error (kind_text step.kind ++ codes " step requires sql")) (script_text cli step)
          start (subst EndsWell as_script well) in
      let e1 = as_script ∙ one in
      let (w', ms, told, some_sql, all, two) =
        script_text-EndsWell step sql start (subst EndsWell e1 well) in
      let e2 = e1 ∙ two in
      (
        sql,
        ms,
        told,
        given_lem step.sql sql has_sql,
        some_sql,
        subst (λ v. AllAnswered (split_sql_statements sql) w v ms told)
            (sym (ap (λ t. t.1.world) e2)) all,
        ap (λ t. t.1.engine_reported_ms) e2,
      )
