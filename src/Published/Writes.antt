-- ===== src/Published/Writes.antt =====
-- The statistics and the tables of `render_write_md` in reports/build_published.py. Rates are ratios of
-- whole numbers; a median of 0 stands where the program divides by zero.
pub mod Laws
use delta_forge_benchmarks.Common.{
  ℕ, suc, ◌+◌, ◌-◌, ◌*◌, ◌/◌, ◌%◌, Bool, true, false, not, ◌||◌, Option, none, some, List, [], ◌∷◌,
  ◌++◌, map, keep, length, get_or, leb, if◌then◌else◌, ◌==◌, nat_eq, list_eq,
}
use delta_forge_benchmarks.Common.Sort.{sorted}
use delta_forge_benchmarks.Common.Text.{Text, codes, show}
use delta_forge_benchmarks.Host.System.{ends_with}
use delta_forge_benchmarks.Published.Format.{two_digits, fmt_ms}
use delta_forge_benchmarks.Published.Medians.{Line, sid_of, error_head}
use delta_forge_benchmarks.Published.Tables.{engine_order, engine_label}
use delta_forge_benchmarks.Stats.Percentile.{Ms, round_ratio, median_sorted}

-- The variables of the loop over the lines of an engine.
pub record Writing : Type 0 where
  pub warm_wall : List Ms
  pub cold_wall : Option Ms
  pub ok : ℕ
  pub fail : ℕ
  pub first_error : Option Text

-- A line of the setup, of the cleanup, or without a step.
unfoldable pub is_passed_over : Line → Bool
unfolding ends_with
is_passed_over r =
    sid_of r == []
    || (ends_with (codes "setup") (sid_of r) || ends_with (codes "cleanup") (sid_of r))

abbrev or_first : Option Text → Text → Option Text
or_first none e = some e
or_first (some old) e = some old

abbrev unless_error : Option Text → Option Ms → Option Ms
unless_error none wall = wall
unless_error (some e) wall = none

abbrev add_wall : Bool → Ms → Writing → Writing
add_wall true wall st = record st { ok = suc st.ok; cold_wall = some wall }
add_wall false wall st = record st { ok = suc st.ok; warm_wall = st.warm_wall ++ wall ∷ [] }

abbrev pub add_write : Line → Writing → Writing
add_write r st = elim (unless_error r.error r.wall_ms) [
  | none ↦ record st { fail = suc st.fail; first_error = or_first st.first_error (error_head r) }
  | some wall ↦ add_wall r.cold wall st
]

unfoldable pub add_writes : List Line → Writing → Writing
unfolding is_passed_over error_head
add_writes [] st = st
add_writes (r ∷ rs) st = add_writes rs (if is_passed_over r then st else add_write r st)

pub record WriteStats : Type 0 where
  pub warm_median_ms : ℕ
  pub warm_min_ms : Ms
  pub warm_max_ms : Ms
  pub warm_p95_ms : Ms
  pub cold_ms : Option Ms
  pub first_error : Option Text
  pub ok : ℕ
  pub fail : ℕ

-- `sorted(warm)[max(0, int(0.95 * n) - 1)]`
unfoldable pub p95_of : List Ms → Ms
p95_of warm = get_or (sorted leb warm) (95 * length warm / 100 - 1) 0

abbrev pub write_stats : List Ms → Writing → Option WriteStats
write_stats [] st = none
write_stats (m ∷ ms) st =
    let s = sorted leb (m ∷ ms) in
    some (record {
      warm_median_ms = median_sorted s;
      warm_min_ms = get_or s 0 0;
      warm_max_ms = get_or s (length s - 1) 0;
      warm_p95_ms = p95_of (m ∷ ms);
      cold_ms = st.cold_wall;
      first_error = st.first_error;
      ok = st.ok;
      fail = st.fail;
    })

-- None for a missing file, and where no warm run is left.
unfoldable pub engine_stats : Option (List Line) → Option WriteStats
unfolding add_writes p95_of median_sorted
engine_stats none = none
engine_stats (some lines) =
    let none_yet : Writing = record {
      warm_wall = [];
      cold_wall = none;
      ok = 0;
      fail = 0;
      first_error = none;
    } in
    let st = add_writes lines none_yet in write_stats st.warm_wall st

abbrev or_ok : Option Text → Text
or_ok none = codes "ok"
or_ok (some []) = codes "ok"
or_ok (some (c ∷ s)) = c ∷ s

-- `WRITE_ROW_COUNTS["synthetic_write_delta"]`
abbrev pub n_rows : ℕ
n_rows = 10000000

-- Rows in a second over a million, in hundredths, and a hundred bytes each, in tenths of megabytes.
unfoldable pub million_rows : ℕ → ℕ
million_rows med = round_ratio (n_rows * 10000) med

unfoldable pub megabytes : ℕ → ℕ
megabytes med = round_ratio (n_rows * 100000) med

unfoldable pub headline_row : Text → Option WriteStats → List Text
unfolding fmt_ms million_rows megabytes show
headline_row e none =
    engine_label e
    ∷ codes "skipped"
    ∷ codes "-"
    ∷ codes "-"
    ∷ codes "-"
    ∷ codes "engine not run"
    ∷ []
headline_row e (some s) =
    let rate = million_rows s.warm_median_ms in
    let bytes = megabytes s.warm_median_ms in
    engine_label e
    ∷ (show s.ok ++ codes " / " ++ show (s.ok + s.fail))
    ∷ fmt_ms (some s.warm_median_ms)
    ∷ (show (rate / 100) ++ two_digits rate ++ codes "M")
    ∷ (show (bytes / 10) ++ b'.' ∷ (48 + bytes % 10) ∷ [])
    ∷ or_ok s.first_error
    ∷ []

abbrev hundred : Option Ms → Option ℕ
hundred none = none
hundred (some m) = some (m * 100)

unfoldable pub detail_rows : Text → Option WriteStats → List (List Text)
unfolding fmt_ms
detail_rows e none = []
detail_rows e (some s) =
    (engine_label e
      ∷ fmt_ms (hundred s.cold_ms)
      ∷ fmt_ms (some (s.warm_min_ms * 100))
      ∷ fmt_ms (some s.warm_median_ms)
      ∷ fmt_ms (some (s.warm_p95_ms * 100))
      ∷ fmt_ms (some (s.warm_max_ms * 100))
      ∷ [])
    ∷ []

-- The ratio of the rates is that of the medians, the other way round.
unfoldable pub speed_row : Option WriteStats → Text → Option WriteStats → List Text
unfolding show
speed_row df e none = engine_label e ∷ codes "-" ∷ []
speed_row none e (some s) = engine_label e ∷ codes "-" ∷ []
speed_row (some df) e (some s) =
    let h = round_ratio (df.warm_median_ms * 100) s.warm_median_ms in
    engine_label e ∷ (show (h / 100) ++ two_digits h ++ codes "x") ∷ []

pub record WriteTables : Type 0 where
  pub headline : List (List Text)
  pub detail : List (List Text)
  pub speeds : List (List Text)

abbrev concat_rows : List (List (List Text)) → List (List Text)
concat_rows [] = []
concat_rows (r ∷ rs) = r ++ concat_rows rs

unfoldable pub write_tables : (Text → Option (List Line)) → WriteTables
unfolding engine_stats headline_row detail_rows speed_row
write_tables jsonl =
    let others = keep (λ e. not (e == codes "df")) engine_order in
    record {
      headline = map (λ e. headline_row e (engine_stats (jsonl e))) engine_order;
      detail = concat_rows (map (λ e. detail_rows e (engine_stats (jsonl e))) engine_order);
      speeds =
          map (λ e. speed_row (engine_stats (jsonl (codes "df"))) e (engine_stats (jsonl e)))
            others;
    }
