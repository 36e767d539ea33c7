-- ===== src/Engines/Frame.antt =====
-- The body of `run_step` in the adapters: the local variables that a result is made of, the state of the
-- engine, and exceptions. What was written before a raise stays written.
pub mod Laws
use delta_forge_benchmarks.Common.{ℕ, ◌-◌, Bool, true, false, Option, none, some, String, take}
use delta_forge_benchmarks.Common.Text.{Text, codes}
use delta_forge_benchmarks.Common.Dict.{Dict}
use delta_forge_benchmarks.Engines.Metrics.{Sampling, Sampler, sampled}
use delta_forge_benchmarks.Steps.{Callable, Metric, WorkloadStep, StepResult}

-- What a step raises: of the adapter itself, or of what it calls, with its `repr`.
pub data PyException : Type 0 where
  value_error runtime_error : Text → PyException
  other : Text → PyException

pub record Frame (W : Type 0) : Type 0 where
  pub world : W
  pub engine_reported_ms : Option ℕ
  pub rows_returned : Option ℕ
  pub result_sha : Option String
  pub extra : Option (Dict Text Metric)

pub data Result (A : Type 0) : Type 0 where
  ok : A → Result A
  err : PyException → Result A

abbrev pub Action : Type 0 → Type 0 → Type 0
Action W A = Frame W → Result A × Frame W

module _ {W A : Type 0} where
  abbrev pub pure : A → Action W A
  pure a f = (ok a, f)

  abbrev pub raise : PyException → Action W A
  raise e f = (err e, f)

  abbrev pub or_raise : Option A → PyException → Action W A
  or_raise none e = raise e
  or_raise (some a) e = pure a

-- An exception passes the rest of the body over.
abbrev pub feed : {W A B : Type 0} → (A → Action W B) → Result A × Frame W → Result B × Frame W
feed k (ok a, f) = k a f
feed k (err e, f) = (err e, f)

infixl 5 ◌>>=◌ ◌>>◌
abbrev pub ◌>>=◌ : {W A B : Type 0} → Action W A → (A → Action W B) → Action W B
◌>>=◌ m k f = feed k (m f)

abbrev pub ◌>>◌ : {W B : Type 0} → Action W (Unit {0}) → Action W B → Action W B
m >> k = m >>= λ _. k

abbrev pub raise_if : {W : Type 0} → Bool → PyException → Action W (Unit {0})
raise_if true e f = (err e, f)
raise_if false e f = (ok tt, f)

abbrev pub modify : {W : Type 0} → (Frame W → Frame W) → Action W (Unit {0})
modify g f = (ok tt, g f)

-- A call of something outside: it raises, or gives a value.
abbrev pub call : {W A : Type 0} → (W → W × Result A) → Action W A
call run f = let (w, r) = run f.world in (r, record f { world = w })

-- What every adapter has around it: the clock, Python's `repr`, the functions of steps, and the sampler
-- thread between two states.
pub record Machine (W : Type 0) : Type 0 where
  pub perf_counter : W → ℕ
  pub repr : PyException → Text
  pub repr_text : Text → Text
  pub call_fn : W → Callable → W × Result Unit
  pub sampling : W → W → Sampling

module _ {W : Type 0} (m : Machine W) where
  abbrev pub initial : W → Frame W
  initial w = record {
    world = w;
    engine_reported_ms = none;
    rows_returned = none;
    result_sha = none;
    extra = none;
  }

  abbrev exit_code_of : Result Unit → ℕ
  exit_code_of (ok _) = 0
  exit_code_of (err _) = 1

  -- `error = repr(e)[:2000]`
  abbrev error_of : Result Unit → Option Text
  error_of (ok _) = none
  error_of (err e) = some (take 2000 (m.repr e))

  -- The result of a body that began in the state `w`; the sampler is there if its process is known.
  unfoldable pub make_result : WorkloadStep → W → Bool → Result Unit × Frame W → W × StepResult
  make_result step w watched (r, f) =
      let idle : Sampler = record { peak_rss_mb = none; avg_cpu_pct = none } in
      let s : Sampler = elim watched [ true ↦ sampled (m.sampling w f.world) | false ↦ idle ] in
      (
        f.world,
        record {
          step_id = step.id;
          wall_ms = m.perf_counter f.world - m.perf_counter w;
          engine_reported_ms = f.engine_reported_ms;
          rss_peak_mb = s.peak_rss_mb;
          cpu_pct_avg = s.avg_cpu_pct;
          rows_returned = f.rows_returned;
          result_sha256 = f.result_sha;
          exit_code = exit_code_of r;
          error = error_of r;
          extra = f.extra;
        },
      )

  -- `if step.fn is None: raise ...; step.fn(self)`
  unfoldable pub python_step : Option Callable → Action W (Unit {0})
  python_step none = raise (value_error (codes "STEP_PYTHON requires fn"))
  python_step (some fn) = call (λ w. m.call_fn w fn)
