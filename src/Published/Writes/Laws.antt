-- ===== src/Published/Writes/Laws.antt =====
-- The statistics of `render_write_md` in reports/build_published.py, against the warm times of the lines.
use mathlib.Core.List.{append-nil, append_assoc}
use mathlib.Core.Option.{some-injective, none-ne-some}
use delta_forge_benchmarks.Common.{
  ℕ, suc, ◌+◌, ◌-◌, ◌*◌, ◌/◌, ◌%◌, ◌<◌, ◌≡◌, refl, subst, ap, sym, ◌∙◌, Bool, true, false, not,
  ◌&&◌, Option, none, some, List, [], ◌∷◌, ◌++◌, count_if, get_or, length, leb, if_elim,
  if◌then◌else◌, ◌==◌, nat_eq, list_eq, arith,
}
use delta_forge_benchmarks.Common.Sort.{sorted}
use delta_forge_benchmarks.Common.Sort.Laws.{length-sorted}
use delta_forge_benchmarks.Common.Sort.Ranks.{IsRank, get_or-sorted-IsRank}
use delta_forge_benchmarks.Common.Text.{codes}
use delta_forge_benchmarks.Host.System.{ends_with}
use delta_forge_benchmarks.Published.Medians.{Line, sid_of}
use delta_forge_benchmarks.Published.Writes.{
  Writing, is_passed_over, add_write, add_writes, WriteStats, p95_of, write_stats, engine_stats,
}
use delta_forge_benchmarks.Stats.Percentile.{Ms, median_sorted}

-- A line of a write: its step has a name, which ends neither in "setup" nor in "cleanup".
abbrev pub is_write : Line → Bool
is_write r =
    not (sid_of r == [])
    && (not (ends_with (codes "setup") (sid_of r)) && not (ends_with (codes "cleanup") (sid_of r)))

-- The time of a warm run without an error.
abbrev warm_time : Line → Option Ms
warm_time r = if r.cold then none else elim r.error [ none ↦ r.wall_ms | some e ↦ none ]

abbrev with_time : Option Ms → List Ms → List Ms
with_time none ms = ms
with_time (some m) ms = m ∷ ms

abbrev pub warm_writes : List Line → List Ms
warm_writes [] = []
warm_writes (r ∷ rs) =
    let rest = warm_writes rs in if is_write r then with_time (warm_time r) rest else rest

-- The least time is the first of the times in their order, and the greatest the last; the 95th percentile is
-- that at the whole part of 95 per cent of their number, and never before the first; the median is half the
-- sum of the two in the middle, which are one if the number is odd.
abbrev pub Ranked : List Ms → WriteStats → Type 0
Ranked warm s =
    let n = length warm in
    IsRank 1 s.warm_min_ms warm
    × IsRank n s.warm_max_ms warm
    × IsRank (suc (95 * n / 100 - 1)) s.warm_p95_ms warm
    × ((low : Ms) × (high : Ms) × IsRank (suc ((n - 1) / 2)) low warm
        × IsRank (suc (n / 2)) high warm
        × (s.warm_median_ms ≡ (low + high) * 50))

median_sorted-middle :
    (s : List Ms)
    → 0 < length s
    → median_sorted s ≡ (get_or s ((length s - 1) / 2) 0 + get_or s (length s / 2) 0) * 50
unfolding median_sorted
median_sorted-middle s some_time =
    if_elim (λ (v : ℕ). v ≡ (get_or s ((length s - 1) / 2) 0 + get_or s (length s / 2) 0) * 50)
      (length s % 2 == 1) _ _
      (λ odd.
        let same : (length s - 1) / 2 ≡ length s / 2 = ground (arith, odd) in
        omega (arith, ap (λ i. get_or s i 0) same))
      (λ even.
        let same : (length s - 1) / 2 ≡ length s / 2 - 1 = ground (arith, even) in
        omega (arith, ap (λ i. get_or s i 0) same))

write_stats-Ranked :
    (warm : List Ms) (st : Writing) (s : WriteStats) → write_stats warm st ≡ some s → Ranked warm s
unfolding p95_of
write_stats-Ranked [] st s h = elim (none-ne-some s h) [ ]
write_stats-Ranked (m ∷ ms) st s h =
    let warm = m ∷ ms in
    let same : length (sorted leb warm) ≡ suc (length ms) = length-sorted leb warm in
    let top : length (sorted leb warm) - 1 ≡ length ms = omega (arith, same) in
    let rank = λ (i : ℕ) (within : i < suc (length ms)). get_or-sorted-IsRank warm i within in
    let middle = median_sorted-middle (sorted leb warm) (omega (arith, same)) in
    subst (Ranked warm) (some-injective _ s h) (
      rank 0 (omega arith),
      subst (λ n. IsRank (suc (length ms)) (get_or (sorted leb warm) n 0) warm) (sym top)
          (rank (length ms) (omega arith)),
      rank (95 * suc (length ms) / 100 - 1) (omega arith),
      (
        get_or (sorted leb warm) ((suc (length ms) - 1) / 2) 0,
        get_or (sorted leb warm) (suc (length ms) / 2) 0,
        rank ((suc (length ms) - 1) / 2) (omega arith),
        rank (suc (length ms) / 2) (omega arith),
        middle
            ∙ ap
                (λ n.
                  (get_or (sorted leb warm) ((n - 1) / 2) 0 + get_or (sorted leb warm) (n / 2) 0)
                  * 50)
                same,
      ),
    )

add_write_warm :
    (r : Line) (st : Writing)
    → (add_write r st).warm_wall ≡ st.warm_wall ++ with_time (warm_time r) []
add_write_warm r st = by_case r.cold r.error r.wall_ms
  where
    by_case :
        (cold : Bool) (e : Option _) (o : Option Ms)
        → (add_write (record r { cold = cold; error = e; wall_ms = o }) st).warm_wall
          ≡ st.warm_wall
            ++ with_time (if cold then none else elim e [ none ↦ o | some e ↦ none ]) []
    by_case true (some e) o = sym (append-nil st.warm_wall)
    by_case true none none = sym (append-nil st.warm_wall)
    by_case true none (some m) = sym (append-nil st.warm_wall)
    by_case false (some e) o = sym (append-nil st.warm_wall)
    by_case false none none = sym (append-nil st.warm_wall)
    by_case false none (some m) = refl

is_write-not : (r : Line) → is_write r ≡ not (is_passed_over r)
unfolding is_passed_over
is_write-not r = ground arith

with_time_append : (o : Option Ms) (ms : List Ms) → with_time o [] ++ ms ≡ with_time o ms
with_time_append none ms = refl
with_time_append (some m) ms = refl

add_writes_warm :
    (rs : List Line) (st : Writing) → (add_writes rs st).warm_wall ≡ st.warm_wall ++ warm_writes rs
unfolding add_writes
add_writes_warm [] st = sym (append-nil st.warm_wall)
add_writes_warm (r ∷ rs) st =
    by_test (is_passed_over r) (is_write r) (is_write-not r) (add_writes_warm rs st) (
      add_writes_warm rs (add_write r st)
      ∙ ap (λ w. w ++ warm_writes rs) (add_write_warm r st)
      ∙ append_assoc st.warm_wall (with_time (warm_time r) []) (warm_writes rs)
      ∙ ap (λ w. st.warm_wall ++ w) (with_time_append (warm_time r) (warm_writes rs)))
  where
    by_test :
        (passed write : Bool)
        → write ≡ not passed
        → (add_writes rs st).warm_wall ≡ st.warm_wall ++ warm_writes rs
        → (add_writes rs (add_write r st)).warm_wall
          ≡ st.warm_wall ++ with_time (warm_time r) (warm_writes rs)
        → (add_writes rs (if passed then st else add_write r st)).warm_wall
          ≡ st.warm_wall
            ++ (if write then with_time (warm_time r) (warm_writes rs) else warm_writes rs)
    by_test true true h a b = cc
    by_test true false h a b = a
    by_test false true h a b = b
    by_test false false h a b = cc

add_write_counts :
    (r : Line) (st : Writing) → (add_write r st).ok + (add_write r st).fail ≡ suc (st.ok + st.fail)
add_write_counts r st = ground arith

add_writes_counts :
    (rs : List Line) (st : Writing)
    → let after = add_writes rs st in after.ok + after.fail ≡ st.ok + st.fail + count_if is_write rs
unfolding add_writes
add_writes_counts [] st = omega arith
add_writes_counts (r ∷ rs) st =
    by_test (is_passed_over r) (is_write r) (is_write-not r) (add_writes_counts rs st)
      (add_writes_counts rs (add_write r st)) (add_write_counts r st)
  where
    by_test :
        (passed write : Bool)
        → write ≡ not passed
        → (add_writes rs st).ok + (add_writes rs st).fail ≡ st.ok + st.fail + count_if is_write rs
        → (add_writes rs (add_write r st)).ok + (add_writes rs (add_write r st)).fail
          ≡ (add_write r st).ok + (add_write r st).fail + count_if is_write rs
        → (add_write r st).ok + (add_write r st).fail ≡ suc (st.ok + st.fail)
        → (add_writes rs (if passed then st else add_write r st)).ok
            + (add_writes rs (if passed then st else add_write r st)).fail
          ≡ st.ok + st.fail + (if write then suc (count_if is_write rs) else count_if is_write rs)
    by_test true true h a b c = cc
    by_test true false h a b c = a
    by_test false true h a b c = omega (arith, b, c)
    by_test false false h a b c = cc

write_stats_counts :
    (warm : List Ms) (st : Writing) (s : WriteStats)
    → write_stats warm st ≡ some s
    → s.ok + s.fail ≡ st.ok + st.fail
write_stats_counts [] st s h = elim (none-ne-some s h) [ ]
write_stats_counts (m ∷ ms) st s h =
    subst (λ (t : WriteStats). t.ok + t.fail ≡ st.ok + st.fail) (some-injective _ s h) refl

-- The least, the greatest, the 95th percentile and the median on the write page are those of the warm times
-- of an engine, by their ranks: the times of its successful warm lines that are of a write. The rank of the
-- 95th percentile of n times is the whole part of 0.95 n, or 1 where that is 0. Successes and failures are
-- together the lines of a write.
pub engine_stats-Ranked :
    (lines : List Line) (s : WriteStats)
    → engine_stats (some lines) ≡ some s
    → Ranked (warm_writes lines) s × (s.ok + s.fail ≡ count_if is_write lines)
unfolding engine_stats
engine_stats-Ranked lines s h = (
  subst (λ w. Ranked w s) (add_writes_warm lines _) (write_stats-Ranked _ _ s h),
  write_stats_counts _ _ s h ∙ add_writes_counts lines _ ∙ from_none _,
)
  where
    from_none : (n : ℕ) → 0 + 0 + n ≡ n
    from_none n = omega arith
