-- ===== src/Engines/Metrics.antt =====
-- `MetricSampler` of engines/_metrics.py. What psutil answers is given as the polls of the thread;
-- memory is in bytes, percentages in thousandths.
pub mod Laws
use delta_forge_benchmarks.Common.{
  ℕ, ◌+◌, ◌*◌, Bool, true, false, Option, none, some, List, [], ◌∷◌, length, if◌then◌else◌,
}
use Prim.Native.Nat.{max}
use delta_forge_benchmarks.Stats.Percentile.{round_ratio}

-- `as_dict` of a process: it raises, or gives the memory and the processor share where they are known.
pub data Reading : Type 0 where
  skipped : Reading
  read : Option ℕ → Option ℕ → Reading

-- One round: the root process is gone, or its tree is read.
pub data Poll : Type 0 where
  gone : Poll
  tree : List Reading → Poll

-- What the thread meets: no process, or rounds until `stop`; the flag says that it ends within the time
-- of the join.
pub data Sampling : Type 0 where
  no_process : Sampling
  rounds : List Poll → Bool → Sampling

pub record Sampler : Type 0 where
  pub peak_rss_mb : Option ℕ
  pub avg_cpu_pct : Option ℕ

abbrev amount : Option ℕ → ℕ
amount none = 0
amount (some n) = n

unfoldable pub rss_total : List Reading → ℕ
rss_total [] = 0
rss_total (skipped ∷ ps) = rss_total ps
rss_total (read rss cpu ∷ ps) = amount rss + rss_total ps

unfoldable pub cpu_total : List Reading → ℕ
cpu_total [] = 0
cpu_total (skipped ∷ ps) = cpu_total ps
cpu_total (read rss cpu ∷ ps) = amount cpu + cpu_total ps

-- The loop of `_run` from a peak: the peak in bytes, and the samples.
unfoldable pub run_loop : ℕ → List Poll → ℕ × List ℕ
unfolding rss_total cpu_total
run_loop peak [] = (peak, [])
run_loop peak (gone ∷ ps) = (peak, [])
run_loop peak (tree t ∷ ps) =
    let (peak', samples) = run_loop (max peak (rss_total t)) ps in (peak', cpu_total t ∷ samples)

abbrev pub sum : List ℕ → ℕ
sum [] = 0
sum (x ∷ xs) = x + sum xs

unfoldable pub average : List ℕ → Option ℕ
average [] = none
average (x ∷ xs) = some (round_ratio (sum (x ∷ xs)) (length (x ∷ xs)))

-- `peak_rss / (1024 * 1024)`, in thousandths
unfoldable pub megabytes : ℕ → ℕ
megabytes bytes = round_ratio (bytes * 1000) (1024 * 1024)

-- What `stop` leaves.
unfoldable pub sampled : Sampling → Sampler
unfolding run_loop average megabytes
sampled no_process = record { peak_rss_mb = none; avg_cpu_pct = none }
sampled (rounds polls ended) =
    let (peak, samples) = run_loop 0 polls in
    record {
      peak_rss_mb = if ended then some (megabytes peak) else none;
      avg_cpu_pct = average samples;
    }
