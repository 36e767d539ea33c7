-- ===== src/Engines/Metrics/Laws.antt =====
-- The peak and the samples of `MetricSampler` in engines/_metrics.py.
use Prim.Native.Nat.{max}
use delta_forge_benchmarks.Common.{
  ℕ, ◌≤◌, ◌≡◌, refl, ap, ◌⊎◌, inl, Bool, true, none, some, List, [], ◌∷◌, map, All, any, ◌==◌,
  nat_eq, if◌then◌else◌, arith,
}
use delta_forge_benchmarks.Engines.Metrics.{
  Reading, Poll, gone, tree, rounds, rss_total, cpu_total, run_loop, average, megabytes, sampled,
}

-- The trees that were read before the root process was gone.
abbrev pub seen : List Poll → List (List Reading)
seen [] = []
seen (gone ∷ ps) = []
seen (tree t ∷ ps) = t ∷ seen ps

abbrev pub Below : ℕ → List (List Reading) → Type 0
Below peak = All (λ t. rss_total t ≤ peak)

-- Some tree has this total.
abbrev pub reached : ℕ → List (List Reading) → Bool
reached peak = any (λ t. rss_total t == peak)

run_loop-le : (p : ℕ) (ps : List Poll) → (p ≤ (run_loop p ps).0) × Below (run_loop p ps).0 (seen ps)
unfolding run_loop
run_loop-le p [] = (omega arith, tt)
run_loop-le p (gone ∷ ps) = (omega arith, tt)
run_loop-le p (tree t ∷ ps) =
    let (above, below) = run_loop-le (max p (rss_total t)) ps in
    (omega (arith, above), (omega (arith, above), below))

run_loop-reached :
    (p : ℕ) (ps : List Poll)
    → ((run_loop p ps).0 ≡ p) ⊎ (reached (run_loop p ps).0 (seen ps) ≡ true)
unfolding run_loop
run_loop-reached p [] = inl refl
run_loop-reached p (gone ∷ ps) = inl refl
run_loop-reached p (tree t ∷ ps) = ground (arith, run_loop-reached (max p (rss_total t)) ps)

run_loop-samples : (p : ℕ) (ps : List Poll) → (run_loop p ps).1 ≡ map cpu_total (seen ps)
unfolding run_loop
run_loop-samples p [] = refl
run_loop-samples p (gone ∷ ps) = refl
run_loop-samples p (tree t ∷ ps) =
    ap (λ l. cpu_total t ∷ l) (run_loop-samples (max p (rss_total t)) ps)

-- The sampler's peak is the greatest total of the trees that were read until the root process was gone or
-- the sampler stopped, and 0 if none was; it is reported if the thread ended in time. The average is that
-- of the totals of the same trees, in their order.
pub sampled_rounds :
    (polls : List Poll) (ended : Bool)
    → (peak : ℕ) × Below peak (seen polls)
      × ((peak ≡ 0) ⊎ (reached peak (seen polls) ≡ true))
      × ((sampled (rounds polls ended)).peak_rss_mb
          ≡ (if ended then some (megabytes peak) else none))
      × ((sampled (rounds polls ended)).avg_cpu_pct ≡ average (map cpu_total (seen polls)))
unfolding sampled
sampled_rounds polls ended = (
  (run_loop 0 polls).0,
  (run_loop-le 0 polls).1,
  run_loop-reached 0 polls,
  refl,
  ap average (run_loop-samples 0 polls),
)
