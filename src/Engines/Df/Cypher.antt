-- ===== src/Engines/Df/Cypher.antt =====
-- The Cypher branch of `run_step` in engines/df_engine.py.
use delta_forge_benchmarks.Common.{ℕ, Option, none, List, [], ◌∷◌, map, keep}
use delta_forge_benchmarks.Common.Text.{Text}
use delta_forge_benchmarks.Engines.Df.Reported.{is_time}
use delta_forge_benchmarks.Engines.Df.Walk.{StatsRow}
use delta_forge_benchmarks.Engines.Frame.{Frame}
use delta_forge_benchmarks.Engines.Output.{stats_num}

-- The last of the values, or else `d`.
abbrev latest : List (Option ℕ) → Option ℕ → Option ℕ
latest [] d = d
latest (o ∷ os) d = latest os o

-- What the last cell of the time says.
abbrev pub last_ms : List StatsRow → Option ℕ
last_ms rows = latest (map (λ r. stats_num r.value) (keep is_time rows)) none
