-- ===== src/Runner/Run/Progress.antt =====
-- What a part of a run adds to the line file and to the list of records, and how two parts make one.
use mathlib.Core.List.{append-nil, append_assoc, map-append}
use delta_forge_benchmarks.Common.{
  &&-split, all, not, ◌||◌, ℕ, ◌≡◌, ◌≢◌, refl, sym, ap, ap₂, ◌∙◌, Bool, true, List, [], ◌∷◌, ◌++◌,
  map, String, arith,
}
use delta_forge_benchmarks.Runner.Run.{
  StepRecord, RunState, Ending, finished, setup_failed, crashed, continue_with,
}

-- A record by its place in the schedule.
abbrev pub Label : Type 0
Label = String × ℕ × Bool

abbrev pub label : StepRecord → Label
label r = (r.step_id, r.run_idx, r.cold)

-- Only a cold run is marked as purged.
abbrev pub purged_if_cold : StepRecord → Bool
purged_if_cold r = not r.purge_verified || r.cold

abbrev pub PurgedIfCold : List StepRecord → Type 0
PurgedIfCold rs = all purged_if_cold rs ≡ true

pub PurgedIfCold-append :
    (rs ss : List StepRecord) → PurgedIfCold rs → PurgedIfCold ss → PurgedIfCold (rs ++ ss)
PurgedIfCold-append [] ss h k = k
PurgedIfCold-append (r ∷ rs) ss h k =
    ground
      (arith, PurgedIfCold-append rs ss (&&-split (purged_if_cold r) (all purged_if_cold rs) h).1 k)

-- From one state to another the same records were added to the file and to the list. They are the first
-- of the runs `todo`, in order, and all of them if the ending is `finished`.
pub record Progress {W : Type 0} (before after : RunState W) (todo : List Label) (ending : Ending)
    : Type 0 where
  pub new : List StepRecord
  pub left : List Label
  pub jsonl : after.jsonl ≡ before.jsonl ++ new
  pub records : after.records ≡ before.records ++ new
  pub labels : map label new ++ left ≡ todo
  pub complete : ending ≡ finished → left ≡ []
  pub purged : PurgedIfCold new
  pub past_setup : ending ≢ setup_failed

module _ {W : Type 0} where
  pub Progress-none : (st : RunState W) → Progress st st [] finished
  Progress-none st = record {
    new = [];
    left = [];
    jsonl = sym (append-nil st.jsonl);
    records = sym (append-nil st.records);
    labels = refl;
    complete = λ _. refl;
    purged = refl;
    past_setup = λ e. cc;
  }

  -- Work that stops early leaves the rest of the schedule.
  pub Progress-stop :
      {before after : RunState W} {todo : List Label} {ending : Ending} (more : List Label)
      → ending ≢ finished
      → Progress before after todo ending
      → Progress before after (todo ++ more) ending
  Progress-stop more early p = record {
    new = p.new;
    left = p.left ++ more;
    jsonl = p.jsonl;
    records = p.records;
    labels = sym (append_assoc (map label p.new) p.left more) ∙ ap (λ l. l ++ more) p.labels;
    complete = λ e. absurd (early e);
    purged = p.purged;
    past_setup = p.past_setup;
  }

  pub all_done :
      {before after : RunState W} {todo : List Label}
      → (p : Progress before after todo finished) → map label p.new ≡ todo
  all_done p =
      sym (append-nil (map label p.new))
      ∙ ap (λ l. map label p.new ++ l) (sym (p.complete refl))
      ∙ p.labels

  pub Progress-then :
      {before between after : RunState W} {todo more : List Label} {ending : Ending}
      → Progress before between todo finished
      → Progress between after more ending
      → Progress before after (todo ++ more) ending
  Progress-then {before = before} p q = record {
    new = p.new ++ q.new;
    left = q.left;
    jsonl = q.jsonl ∙ ap (λ l. l ++ q.new) p.jsonl ∙ append_assoc before.jsonl p.new q.new;
    records = q.records ∙ ap (λ l. l ++ q.new) p.records ∙ append_assoc before.records p.new q.new;
    labels =
        ap (λ l. l ++ q.left) (map-append label p.new q.new)
        ∙ append_assoc (map label p.new) (map label q.new) q.left
        ∙ ap₂ ◌++◌ (all_done p) q.labels;
    complete = q.complete;
    purged = PurgedIfCold-append p.new q.new p.purged q.purged;
    past_setup = q.past_setup;
  }

  -- One part of a loop and the rest of it.
  pub Progress-continue :
      (st : RunState W) (first rest : RunState W × Ending) (todo more : List Label)
      → Progress st first.0 todo first.1
      → Progress first.0 rest.0 more rest.1
      → let (st', ending) = continue_with first rest in Progress st st' (todo ++ more) ending
  Progress-continue st (st', finished) rest todo more p q = Progress-then p q
  Progress-continue st (st', setup_failed) rest todo more p q = Progress-stop more (λ e. cc) p
  Progress-continue st (st', crashed) rest todo more p q = Progress-stop more (λ e. cc) p
