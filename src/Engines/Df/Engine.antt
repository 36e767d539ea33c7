-- ===== src/Engines/Df/Engine.antt =====
-- The adapter of engines/df_engine.py as the engine of a session: its state is the worker process and the
-- version that `start` found.
use delta_forge_benchmarks.Common.{ℕ, Bool, true, false, Option, none, some, String}
use delta_forge_benchmarks.Engines.Df.Start.{Settings, Platform, AdapterState, fresh, start}
use delta_forge_benchmarks.Engines.Df.Step.{run_step}
use delta_forge_benchmarks.Engines.Frame.{Result, ok, err}
use delta_forge_benchmarks.Purge.{PurgeResult}
use delta_forge_benchmarks.Runner.Run.{Attempt, raised, returned, Host}
use delta_forge_benchmarks.Runner.Session.{Engine}
use delta_forge_benchmarks.Steps.{ColdStartMetrics, WorkloadStep, StepResult}

abbrev pub is_found : Option ℕ → Bool
is_found none = false
is_found (some pid) = true

-- What the runner gives besides the adapter: the purge, the time stamps, and what `version_info` prints.
pub record Around (W : Type 0) : Type 0 where
  pub cold_purge_fn : Option (W × AdapterState → (W × AdapterState) × Attempt (Option PurgeResult))
  pub now : W → String
  pub load : W → W × Attempt {0} Unit
  pub version_info : AdapterState → String

module _ {W : Type 0} (p : Platform W) (around : Around W) where
  unfoldable pub df_run_step :
      W × AdapterState → WorkloadStep → (W × AdapterState) × Attempt StepResult
  unfolding run_step
  df_run_step (w, state) step =
      let (w', r) = run_step p.cli (is_found state.worker_pid) w step in ((w', state), returned r)

  abbrev pub df_host : Host (W × AdapterState)
  df_host = record {
    engine_name = "df";
    run_step = df_run_step;
    cold_purge_fn = around.cold_purge_fn;
    now = λ s. around.now s.0;
  }

  abbrev started :
      AdapterState
      → W × Option (Result (ColdStartMetrics × AdapterState))
      → (W × AdapterState) × Attempt ColdStartMetrics
  started old (w, none) = ((w, old), raised)
  started old (w, some (ok (metrics, state))) = ((w, state), returned metrics)
  started old (w, some (err e)) = ((w, old), raised)

  -- `start` on this much fuel.
  unfoldable pub df_start :
      ℕ → Settings → W × AdapterState → (W × AdapterState) × Attempt ColdStartMetrics
  unfolding start
  df_start fuel s (w, state) = started state (start p fuel s w)

  abbrev loaded : AdapterState → W × Attempt {0} Unit → (W × AdapterState) × Attempt {0} Unit
  loaded state (w, a) = ((w, state), a)

  -- `stop` forgets the process.
  unfoldable pub df_stop : W × AdapterState → (W × AdapterState) × Attempt {0} Unit
  df_stop (w, state) = ((w, record state { worker_pid = none }), returned tt)

  abbrev pub df_engine : ℕ → Settings → Engine (W × AdapterState)
  df_engine fuel s = record {
    host = df_host;
    load = λ t. loaded fresh (around.load t.0);
    start = df_start fuel s;
    version_info = λ t. returned (around.version_info t.1);
    stop = df_stop;
  }
