-- ===== src/Engines/Frame/Laws.antt =====
-- Lemmas on the actions of the adapters: what a body that ends well has done, step by step.
use delta_forge_benchmarks.Common.{◌≡◌, refl, ap, Bool, true, false, Option, none, some, arith}
use delta_forge_benchmarks.Engines.Frame.{
  PyException, Frame, Result, ok, err, Action, or_raise, feed, ◌>>=◌, raise_if, call, Machine,
  make_result,
}
use delta_forge_benchmarks.Steps.{WorkloadStep}

-- The body ended without an exception.
abbrev pub EndsWell : {W A : Type 0} → Result A × Frame W → Type 0
EndsWell {A = A} out = (a : A) × (out.0 ≡ ok a)

module _ {W : Type 0} where
  pub or_raise-EndsWell :
      {A B : Type 0} (o : Option A) (e : PyException) (k : A → Action W B) (f : Frame W)
      → EndsWell ((or_raise o e >>= k) f)
      → (a : A) × (o ≡ some a) × ((or_raise o e >>= k) f ≡ k a f)
  or_raise-EndsWell none e k f (b, h) = cc
  or_raise-EndsWell (some a) e k f h = (a, refl, refl)

  pub bind-EndsWell :
      {A B : Type 0} (m : Action W A) (k : A → Action W B) (f : Frame W)
      → EndsWell ((m >>= k) f)
      → (a : A) × (f' : Frame W) × (m f ≡ (ok a, f')) × ((m >>= k) f ≡ k a f')
  bind-EndsWell {A} {B} m k f h = by_result (m f) refl h
    where
      by_result :
          (r : Result A × Frame W)
          → m f ≡ r
          → EndsWell (feed k r)
          → (a : A) × (f' : Frame W) × (m f ≡ (ok a, f')) × (feed k (m f) ≡ k a f')
      by_result (ok a, f') e h = (a, f', e, ap (feed k) e)
      by_result (err x, f') e (b, h) = cc

  pub raise_if-EndsWell :
      (b : Bool) (e : PyException) (f : Frame W)
      → EndsWell (raise_if b e f)
      → (b ≡ false) × (raise_if b e f ≡ (ok tt, f))
  raise_if-EndsWell true e f (a, h) = cc
  raise_if-EndsWell false e f h = (refl, refl)

  -- The result of a body tells how it ended.
  pub make_result-ok :
      (m : Machine W) (step : WorkloadStep) (w : W) (b : Bool) (out : Result Unit × Frame W)
      → (make_result m step w b out).1.exit_code ≡ 0
      → EndsWell out
  unfolding make_result
  make_result-ok m step w b (ok a, f) h = (a, refl)
  make_result-ok m step w b (err e, f) h = absurd (omega arith)

  -- The same forwards: what a body does behind a step that succeeds.
  pub or_raise-some :
      {A B : Type 0} (o : Option A) (e : PyException) (k : A → Action W B) (f : Frame W) (a : A)
      → o ≡ some a
      → (or_raise o e >>= k) f ≡ k a f
  or_raise-some o e k f a h = ap (λ o. (or_raise o e >>= k) f) h

  pub call_ok :
      {A B : Type 0} (run : W → W × Result A) (k : A → Action W B) (f : Frame W) (a : A)
      → (run f.world).1 ≡ ok a
      → (call run >>= k) f ≡ k a (record f { world = (run f.world).0 })
  call_ok run k f a h = ap (λ r. feed k (r, record f { world = (run f.world).0 })) h
