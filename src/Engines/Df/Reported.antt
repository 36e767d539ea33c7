-- ===== src/Engines/Df/Reported.antt =====
-- The walk over the rows of SHOW STATS, against a description by the cells that it looks for.
use delta_forge_benchmarks.Common.{
  ℕ, ◌≡◌, refl, ap, subst, sym, ◌∙◌, Bool, true, false, ◌&&◌, inl, inr, Option, none, some, List,
  [], ◌∷◌, map, keep, ◌==◌, ==-sound, nat_eq, list_eq, option_eq, Bool-cases, &&-split, arith,
}
use delta_forge_benchmarks.Common.Text.{Text, codes}
use delta_forge_benchmarks.Engines.Df.Walk.{
  StatsRow, is_cell, int_of, or_keep, plain_number, walk_sql_row, walk_sql,
}

abbrev pub last_known : List (Option ℕ) → Option ℕ
last_known [] = none
last_known (o ∷ os) = or_keep (last_known os) o

abbrev pub is_time : StatsRow → Bool
is_time = is_cell "time" "total_time_ms"

abbrev pub is_count : StatsRow → Bool
is_count = is_cell "rows" "rows_returned"

-- The last readable value of the cells of the time, and of those of the row count.
abbrev pub told_ms : List StatsRow → Option ℕ
told_ms rows = last_known (map (λ r. plain_number r.value) (keep is_time rows))

abbrev pub told_rows : List StatsRow → Option ℕ
told_rows rows = last_known (map (λ r. int_of (plain_number r.value)) (keep is_count rows))

-- A cell of the time is none of the row count.
other_category :
    (c : Option Text) → (c == some (codes "time")) ≡ true → (c == some (codes "rows")) ≡ false
other_category c h =
    subst (λ (d : Option Text). (d == some (codes "rows")) ≡ false)
      (sym (==-sound c (some (codes "time")) h)) (unfold option_eq list_eq nat_eq in refl)

and_false : (a b : Bool) → a ≡ false → (a && b) ≡ false
and_false a b h = ground arith

is_count-is_time : (r : StatsRow) → is_time r ≡ true → is_count r ≡ false
is_count-is_time r h = and_false (r.category == some (codes "rows")) _ (
    other_category r.category
      (&&-split (r.category == some (codes "time")) (r.metric == some (codes "total_time_ms")) h).0)

or_keep_assoc : (a b c : Option ℕ) → or_keep a (or_keep b c) ≡ or_keep (or_keep a b) c
or_keep_assoc none b c = refl
or_keep_assoc (some a) b c = refl

pub walk_sql_lem :
    (rows : List StatsRow) (ms count : Option ℕ)
    → walk_sql rows (ms, count) ≡ (or_keep (told_ms rows) ms, or_keep (told_rows rows) count)
unfolding walk_sql walk_sql_row
walk_sql_lem [] ms count = refl
walk_sql_lem (r ∷ rs) ms count = elim (Bool-cases (is_time r)) [
  | inl t ↦
      rw (t, is_count-is_time r t)
        (walk_sql_lem rs (or_keep (plain_number r.value) ms) count
          ∙ ap (λ o. (o, or_keep (told_rows rs) count))
              (or_keep_assoc (told_ms rs) (plain_number r.value) ms))
  | inr t ↦ elim (Bool-cases (is_count r)) [
    | inl c ↦
        rw (t, c)
          (walk_sql_lem rs ms (or_keep (int_of (plain_number r.value)) count)
            ∙ ap (λ o. (or_keep (told_ms rs) ms, o))
                (or_keep_assoc (told_rows rs) (int_of (plain_number r.value)) count))
    | inr c ↦ rw (t, c) (walk_sql_lem rs ms count)
  ]
]

or_keep-none : (o : Option ℕ) → or_keep o none ≡ o
or_keep-none none = refl
or_keep-none (some n) = refl

pub walk_sql_told :
    (rows : List StatsRow) → walk_sql rows (none, none) ≡ (told_ms rows, told_rows rows)
walk_sql_told rows =
    walk_sql_lem rows none none
    ∙ (λ i. (or_keep-none (told_ms rows) i, or_keep-none (told_rows rows) i))
