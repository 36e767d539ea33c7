-- ===== src/Engines/Df/Start.antt =====
-- The settings and `start` of the adapter of engines/df_engine.py: the wait for the control plane, the
-- first query, and the process that the sampler watches. The waiting loop runs on fuel.
use delta_forge_benchmarks.Common.{
  ℕ, zero, suc, ◌+◌, ◌-◌, Bool, false, Option, none, some, List, [], ◌∷◌, ◌++◌, take, any, all, ltb,
  if◌then◌else◌, ◌==◌, nat_eq, list_eq,
}
use delta_forge_benchmarks.Common.Lines.{splitlines}
use delta_forge_benchmarks.Common.Text.{Text, codes}
use delta_forge_benchmarks.Curve.Streams.{is_digit, read}
use delta_forge_benchmarks.Engines.Df.Step.{Cli, CompletedProcess, is_zero, or_text, given}
use delta_forge_benchmarks.Engines.Frame.{runtime_error, Result, ok, err}
use delta_forge_benchmarks.Purge.{strip}
use delta_forge_benchmarks.Steps.{ColdStartMetrics}

-- `a or b or ...`: the first text that is there and not empty.
unfoldable pub first_given : List (Option Text) → Option Text
first_given [] = none
first_given (o ∷ os) = elim (given o) [ none ↦ first_given os | some s ↦ some s ]

abbrev or_default : Option Text → Text → Text
or_default none d = d
or_default (some s) d = s

-- What the constructor reads: the arguments, and the variables of the environment.
pub record Arguments : Type 0 where
  pub cli_path : Option Text
  pub control_url : Option Text
  pub username : Option Text
  pub password : Option Text

pub record Environ : Type 0 where
  pub df_cli_path : Option Text
  pub df_control_url : Option Text
  pub df_username : Option Text
  pub df_password : Option Text
  pub delta_forge_admin_password : Option Text
  pub df_platform_bin : Option Text
  pub which_cli : Option Text
  pub which_pgrep : Option Text

pub record Settings : Type 0 where
  pub cli_path : Text
  pub control_url : Text
  pub username : Text
  pub password : Option Text

-- `__init__`
unfoldable pub settings : Arguments → Environ → Settings
unfolding first_given
settings a env = record {
  cli_path =
      or_default (first_given (a.cli_path ∷ env.df_cli_path ∷ env.which_cli ∷ []))
        (codes "delta-forge-cli");
  control_url =
      or_default (first_given (a.control_url ∷ env.df_control_url ∷ []))
        (codes "http://127.0.0.1:3000");
  username = or_default (first_given (a.username ∷ env.df_username ∷ [])) (codes "admin");
  password = first_given (a.password ∷ env.df_password ∷ env.delta_forge_admin_password ∷ []);
}

-- The part of a path behind its last slash.
unfoldable pub basename : Text → Text
basename [] = []
basename (c ∷ s) =
    let rest = basename s in if any (λ d. d == b'/') s then rest else if c == b'/' then s else c ∷ s

-- The name that `pgrep` looks for.
unfoldable pub process_pattern : Option Text → Text
unfolding basename
process_pattern bin =
    let base = basename (or_default bin []) in
    if base == codes "AppRun"
    then codes "deltaforge"
    else if base == []
    then codes "deltaforge"
    else base

abbrev is_number : Text → Bool
is_number [] = false
is_number (c ∷ s) = all is_digit (c ∷ s)

-- The first line that is a number.
unfoldable pub first_pid : List Text → Option ℕ
unfolding strip read
first_pid [] = none
first_pid (l ∷ ls) =
    let rest = first_pid ls in if is_number (strip l) then some (read 0 (strip l)).0 else rest

-- What the client and the system do besides queries.
pub record Platform (W : Type 0) : Type 0 where
  pub cli : Cli W
  pub environ : Environ
  pub health : W → W × Result CompletedProcess
  pub sleep : W → W
  pub pgrep : W → Text → W × Result CompletedProcess
  pub version : W → W × Result CompletedProcess

pub record AdapterState : Type 0 where
  pub worker_pid : Option ℕ
  pub cli_version : Option Text

abbrev pub fresh : AdapterState
fresh = record { worker_pid = none; cli_version = none }

-- How the wait ends: the fuel runs out, the time is up with the last error, or the plane answers.
pub data Wait : Type 0 where
  out_of_fuel ready : Wait
  unreachable : Text → Wait

module _ {W : Type 0} (p : Platform W) where
  abbrev pub clock : W → ℕ
  clock = p.cli.machine.perf_counter

  -- The error of a health call, or none where it succeeds.
  unfoldable pub health_error : Result CompletedProcess → Option Text
  health_error (ok proc) =
      if is_zero proc.returncode then none else some (take 500 (or_text proc.stderr proc.stdout))
  health_error (err e) = some (p.cli.machine.repr e)

  -- `while time.perf_counter() < deadline: ... else: raise`
  unfoldable pub wait_healthy : ℕ → ℕ → Text → W → W × Wait
  unfolding health_error
  wait_healthy zero deadline last_err w = (w, out_of_fuel)
  wait_healthy (suc fuel) deadline last_err w =
      let (w', r) = p.health w in
      let next = λ (e : Text). wait_healthy fuel deadline e (p.sleep w') in
      if ltb (clock w) deadline
      then (elim (health_error r) [ none ↦ (w', ready) | some e ↦ next e ])
      else (w, unreachable last_err)

  abbrev pid_of : Result CompletedProcess → Option ℕ
  pid_of (ok proc) = if is_zero proc.returncode then first_pid (splitlines proc.stdout) else none
  pid_of (err e) = none

  unfoldable pub locate_worker_pid : W → W × Option ℕ
  unfolding process_pattern first_pid splitlines
  locate_worker_pid w = elim (given p.environ.which_pgrep) [
    | none ↦ (w, none)
    | some path ↦
        let (w', r) = p.pgrep w (process_pattern p.environ.df_platform_bin) in (w', pid_of r)
  ]

  unfoldable pub version_of : Result CompletedProcess → Text
  unfolding strip
  version_of (ok proc) =
      or_default (given (some (strip (or_text proc.stdout proc.stderr)))) (codes "unknown")
  version_of (err e) = codes "unknown"

  -- Behind the first query: the process, the version, and the metrics.
  unfoldable pub settled : ℕ → ℕ → W → W × Result (ColdStartMetrics × AdapterState)
  unfolding locate_worker_pid version_of
  settled ready_ms first_q_ms w =
      let (w', pid) = locate_worker_pid w in
      let (w'', v) = p.version w' in
      (
        w'',
        ok (
          record { import_to_session_ready_ms = ready_ms; session_to_first_query_ms = first_q_ms },
          record { worker_pid = pid; cli_version = some (version_of v) },
        ),
      )

  -- The first query, `SELECT 1`: a call that raises is not caught.
  unfoldable pub probe : ℕ → W → W × Result (ColdStartMetrics × AdapterState)
  unfolding settled
  probe ready_ms w =
      let (w', r) = p.cli.run_cli_query w (codes "SELECT 1 AS x") in
      elim r [
        | err e ↦ (w', err e)
        | ok proc ↦ if is_zero proc.returncode then settled ready_ms (clock w' - clock w) w' else (
          w',
          err (
              runtime_error (
                codes "DeltaForge SELECT 1 probe failed: "
                ++ p.cli.machine.repr_text (or_text proc.stderr proc.stdout))),
        )
      ]

  abbrev pub started_from :
      W → Text → W × Wait → W × Option (Result (ColdStartMetrics × AdapterState))
  started_from w0 url (w, out_of_fuel) = (w, none)
  started_from w0 url (w, ready) = let (w', r) = probe (clock w - clock w0) w in (w', some r)
  started_from w0 url (w, unreachable last_err) = (
    w,
    some (
        err (
          runtime_error (
            codes "DeltaForge control plane at "
            ++ url
            ++ codes " not reachable within 120s. last error: "
            ++ last_err))),
  )

  -- `start`; none where the fuel runs out. Two minutes are 120 000 000 microseconds.
  unfoldable pub start : ℕ → Settings → W → W × Option (Result (ColdStartMetrics × AdapterState))
  unfolding wait_healthy probe
  start fuel s w = elim s.password [
    | none ↦ (
      w,
      some (
          err (
            runtime_error (
              codes "DF_PASSWORD (or DELTA_FORGE_ADMIN_PASSWORD) is not set. "
              ++ codes "The bench compose stack defines this; for ad-hoc runs, "
              ++ codes "export it before invoking bench_runner.py."))),
    )
    | some _ ↦ started_from w s.control_url (wait_healthy fuel (clock w + 120000000) [] w)
  ]
