-- ===== src/Engines/Df/Waiting.antt =====
-- The wait of `start` in engines/df_engine.py, by the clock of the machine.
use delta_forge_benchmarks.Common.{
  ℕ, zero, suc, ◌+◌, ◌*◌, ◌≤◌, ◌≢◌, Option, none, some, true, false, [], refl, arith, ltb, Bool,
  ltb→lt, if◌then◌else◌,
}
use delta_forge_benchmarks.Common.Text.{Text}
use delta_forge_benchmarks.Engines.Df.Start.{
  Platform, Wait, out_of_fuel, ready, unreachable, clock, health_error, wait_healthy, started_from,
  start, Settings,
}

-- The clock of the machine: a call takes no time back, and a pause lasts its second.
pub record RunsOn {W : Type 0} (p : Platform W) : Type 0 where
  pub health : (w : W) → clock p w ≤ clock p (p.health w).0
  pub sleep : (w : W) → clock p w + 1000000 ≤ clock p (p.sleep w)

-- One round, by the test of the time and the error of the call.
round_ends :
    {W : Type 0} (b : Bool) (e : Option Text) (w w' : W) (last_err : Text) (next : Text → W × Wait)
    → ((m : Text) → (next m).1 ≢ out_of_fuel)
    → let r : W × Wait =
        if b
        then (elim e [ none ↦ (w', ready) | some m ↦ next m ])
        else (w, unreachable last_err) in
      r.1 ≢ out_of_fuel
round_ends true none w w' last_err next on = λ q. cc
round_ends true (some m) w w' last_err next on = on m
round_ends false e w w' last_err next on = λ q. cc

either_ends :
    {W A : Type 0} (o : Option Text) (missing given : W × Option A)
    → missing.1 ≢ none
    → given.1 ≢ none
    → let r : W × Option A = elim o [ none ↦ missing | some _ ↦ given ] in r.1 ≢ none
either_ends none missing given a b = a
either_ends (some s) missing given a b = b

module _ {W : Type 0} (p : Platform W) (ticks : RunsOn p) where
  wait_healthy-ends :
      (fuel deadline : ℕ) (last_err : Text) (w : W)
      → deadline ≤ clock p w + fuel * 1000000
      → (wait_healthy p (suc fuel) deadline last_err w).1 ≢ out_of_fuel
  unfolding wait_healthy
  wait_healthy-ends zero deadline last_err w h = ground (arith, ltb→lt (clock p w) deadline)
  wait_healthy-ends (suc fuel) deadline last_err w h =
      let w' = (p.health w).0 in
      round_ends (ltb (clock p w) deadline) (health_error p (p.health w).1) w w' last_err
        (λ m. wait_healthy p (suc fuel) deadline m (p.sleep w'))
        (λ m.
          wait_healthy-ends fuel deadline m (p.sleep w')
            (omega (arith, h, ticks.health w, ticks.sleep w')))

  started_from-ends :
      (w0 : W) (url : Text) (waited : W × Wait)
      → waited.1 ≢ out_of_fuel
      → (started_from p w0 url waited).1 ≢ none
  started_from-ends w0 url (w, out_of_fuel) h = absurd (h refl)
  started_from-ends w0 url (w, ready) h = λ q. cc
  started_from-ends w0 url (w, unreachable m) h = λ q. cc

  -- On a machine where no call of the client takes time back and a pause lasts its second, 121 rounds of
  -- the wait are enough: `start` ends, by an exception or with the metrics, whatever the control plane,
  -- the settings and the environment are.
  pub start_ends : (s : Settings) (w : W) → (start p 121 s w).1 ≢ none
  unfolding start
  start_ends s w =
      either_ends s.password _ _ (λ q. cc)
        (started_from-ends w s.control_url (wait_healthy p 121 (clock p w + 120000000) [] w)
          (wait_healthy-ends 120 (clock p w + 120000000) [] w (omega arith)))
