-- ===== src/Engines/Output/Separators.antt =====
-- The two readers of numbers in engines/df_engine.py, on numbers with thousands separators.
use mathlib.Core.List.{append-nil, append_assoc}
use mathlib.Core.Bool.{false≢true}
use delta_forge_benchmarks.Common.{
  ℕ, zero, suc, ◌*◌, ◌/◌, ◌%◌, ◌<◌, ◌≤◌, ◌≡◌, refl, sym, ap, ◌∙◌, Bool, true, false, ◌||◌, none,
  some, [], ◌∷◌, ◌++◌, all, ltb, ltb→lt, if◌then◌else◌, if_elim, ◌==◌, nat_eq, list_eq, ==-sound,
  Bool-cases, inl, inr, &&-split, &&-join, arith,
}
use delta_forge_benchmarks.Common.Text.{
  Text, codes, show, show_fuel, three_digits, grouped_fuel, grouped,
}
use delta_forge_benchmarks.Curve.Streams.{is_digit, read, starts_digit}
use delta_forge_benchmarks.Curve.Streams.RoundTrip.{read-show_fuel, starts_digit-show_fuel}
use delta_forge_benchmarks.Engines.Df.Walk.{plain_number}
use delta_forge_benchmarks.Engines.Output.{bind, known, parse_float, without_commas, stats_num}
use delta_forge_benchmarks.Engines.Output.Numbers.{
  all-append, bare, bare_step, all_digits-show_fuel, all_digits-three_digits, more_than,
  starts_digit-append, parse_float_solid, parse_float-bare,
}
use delta_forge_benchmarks.Purge.{strip, lstrip, rstrip, is_white}

not_none : (v : Text) → starts_digit v ≡ true → (v == codes "None") ≡ false
not_none v h = elim (Bool-cases (v == codes "None")) [
  | inl same ↦ elim (false≢true (sym (ap starts_digit (==-sound v (codes "None") same)) ∙ h)) [ ]
  | inr other ↦ other
]

known_digits : (v : Text) → starts_digit v ≡ true → known (some v) ≡ some v
known_digits v h = rw (not_none v h) refl

starts_digit-grouped_fuel : (f n : ℕ) → n < f → starts_digit (grouped_fuel f n) ≡ true
unfolding grouped_fuel show
starts_digit-grouped_fuel zero n h = absurd (omega arith)
starts_digit-grouped_fuel (suc f) n h =
    if_elim (λ s. starts_digit s ≡ true) (ltb n 1000) _ _
      (λ one.
        ap starts_digit (sym (append-nil (show_fuel (suc n) n)))
        ∙ starts_digit-show_fuel (suc n) n [] (omega arith))
      (λ more.
        starts_digit-append (grouped_fuel f (n / 1000)) _
          (starts_digit-grouped_fuel f (n / 1000) (omega (arith, h, more_than n more))))

abbrev is_mark : ℕ → Bool
is_mark c = is_digit c || c == 44

digits_are_marks : (s : Text) → all is_digit s ≡ true → all is_mark s ≡ true
digits_are_marks [] h = refl
digits_are_marks (c ∷ s) h =
    let (now, later) = &&-split (is_digit c) (all is_digit s) h in
    &&-join (is_mark c) (all is_mark s) (ap (λ b. b || c == 44) now) (digits_are_marks s later)

comma_and : (s : Text) → all is_mark s ≡ true → all is_mark (44 ∷ s) ≡ true
unfolding nat_eq
comma_and s h = h

all_marks-grouped_fuel : (f n : ℕ) → all is_mark (grouped_fuel f n) ≡ true
unfolding grouped_fuel show
all_marks-grouped_fuel zero n = refl
all_marks-grouped_fuel (suc f) n =
    if_elim (λ s. all is_mark s ≡ true) (ltb n 1000) _ _
      (λ one. digits_are_marks (show_fuel (suc n) n) (all_digits-show_fuel (suc n) n))
      (λ more.
        all-append is_mark (grouped_fuel f (n / 1000)) (44 ∷ three_digits (n % 1000))
          (all_marks-grouped_fuel f (n / 1000))
          (comma_and (three_digits (n % 1000)) (
            digits_are_marks (three_digits (n % 1000))
              (all_digits-three_digits (n % 1000) (omega arith)))))

mark_ne_white : (c : ℕ) → is_mark c ≡ true → is_white c ≡ false
mark_ne_white c h = ground arith

rstrip_marks : (s : Text) → all is_mark s ≡ true → rstrip s ≡ s
unfolding rstrip
rstrip_marks [] h = refl
rstrip_marks (c ∷ s) h =
    let (now, later) = &&-split (is_mark c) (all is_mark s) h in
    rw (mark_ne_white c now) (ap (λ t. c ∷ t) (rstrip_marks s later))

strip_marks : (s : Text) → all is_mark s ≡ true → strip s ≡ s
unfolding strip lstrip
strip_marks [] h = unfold rstrip in refl
strip_marks (c ∷ s) h =
    let (now, later) = &&-split (is_mark c) (all is_mark s) h in
    rw (mark_ne_white c now) (rstrip_marks (c ∷ s) h)

comma_stops : (m : ℕ) (s : Text) → read m (44 ∷ s) ≡ (m, 44 ∷ s)
unfolding read
comma_stops m s = refl

grouped_small : (f n : ℕ) → n < f → ltb n 1000 ≡ true → grouped_fuel f n ≡ show n
unfolding grouped_fuel
grouped_small zero n h one = absurd (omega arith)
grouped_small (suc f) n h one = rw one refl

-- Reading stops at the first comma.
read-grouped_fuel :
    (f n : ℕ) (rest : Text)
    → n < f
    → 1000 ≤ n
    → (m : ℕ) × (t : Text) × (read 0 (grouped_fuel f n ++ rest) ≡ (m, 44 ∷ t))
unfolding grouped_fuel
read-grouped_fuel zero n rest h large = absurd (omega arith)
read-grouped_fuel (suc f) n rest h large =
    if_elim (λ s. (m : ℕ) × (t : Text) × (read 0 (s ++ rest) ≡ (m, 44 ∷ t))) (ltb n 1000) _ _
      (λ one. absurd (omega (arith, ltb→lt n 1000 one)))
      (λ more.
        behind
          (read-grouped_fuel f (n / 1000) (44 ∷ (three_digits (n % 1000) ++ rest)) (omega arith))
          (ltb (n / 1000) 1000) refl)
  where
    behind :
        (1000 ≤ n / 1000
          → (m : ℕ) × (t : Text) × (read 0
                (grouped_fuel f (n / 1000) ++ 44 ∷ (three_digits (n % 1000) ++ rest))
              ≡ (m, 44 ∷ t)))
        → (b : Bool) → ltb (n / 1000) 1000 ≡ b
        → (m : ℕ) × (t : Text) × (read 0
              ((grouped_fuel f (n / 1000) ++ 44 ∷ three_digits (n % 1000)) ++ rest)
            ≡ (m, 44 ∷ t))
    behind later true e =
        let more = 44 ∷ (three_digits (n % 1000) ++ rest) in
        let small : n / 1000 < f = omega arith in
        let same : grouped_fuel f (n / 1000) ≡ show (n / 1000) =
          grouped_small f (n / 1000) small e in
        (
          n / 1000,
          three_digits (n % 1000) ++ rest,
          ap (read 0) (append_assoc (grouped_fuel f (n / 1000)) (44 ∷ three_digits (n % 1000)) rest)
              ∙ ap (λ s. read 0 (s ++ more)) same
              ∙ (unfold show in read-show_fuel (suc (n / 1000)) (n / 1000) more (omega arith))
              ∙ comma_stops (n / 1000) (three_digits (n % 1000) ++ rest),
        )
    behind later false e =
        let (m, t, reads) = later (more_than (n / 1000) e) in
        (
          m,
          t,
          ap (read 0) (append_assoc (grouped_fuel f (n / 1000)) (44 ∷ three_digits (n % 1000)) rest)
              ∙ reads,
        )

plain_number-grouped : (n : ℕ) → 1000 ≤ n → plain_number (some (grouped n)) ≡ none
unfolding grouped
plain_number-grouped n large =
    let s = grouped_fuel (suc n) n in
    let (m, t, reads) = read-grouped_fuel (suc n) n [] (omega arith) large in
    let starts = starts_digit-grouped_fuel (suc n) n (omega arith) in
    ap (λ o. bind o parse_float) (known_digits s starts)
    ∙ parse_float_solid s m (44 ∷ t) (strip_marks s (all_marks-grouped_fuel (suc n) n)) starts
        (ap (read 0) (sym (append-nil s)) ∙ reads)
    ∙ (unfold nat_eq in refl)

plain_number-grouped_small :
    (n : ℕ) → ltb n 1000 ≡ true → plain_number (some (grouped n)) ≡ some (n * 1000)
unfolding grouped
plain_number-grouped_small n one =
    let s = grouped_fuel (suc n) n in
    let digits : s ≡ bare (suc n) n =
      grouped_small (suc n) n (omega arith) one ∙ sym (bare_step n n ∙ rw one refl) in
    ap (λ o. bind o parse_float)
      (known_digits s (starts_digit-grouped_fuel (suc n) n (omega arith)))
    ∙ ap parse_float digits
    ∙ parse_float-bare n

-- A whole number that is printed with thousands separators is read back by the reader of the Cypher
-- branch; the reader of the SQL branch reads it back below 1,000 only, and finds no number in it from
-- 1,000 on.
pub stats_num-grouped :
    (n : ℕ)
    → (stats_num (some (grouped n)) ≡ some (n * 1000))
      × (plain_number (some (grouped n)) ≡ (if ltb n 1000 then some (n * 1000) else none))
unfolding stats_num grouped
stats_num-grouped n = (
  ap (λ o. bind o (λ v. parse_float (without_commas v)))
        (known_digits (grouped_fuel (suc n) n) (starts_digit-grouped_fuel (suc n) n (omega arith)))
      ∙ (unfold bare in parse_float-bare n),
  if_elim (λ o. plain_number (some (grouped n)) ≡ o) (ltb n 1000) (some (n * 1000)) none
      (plain_number-grouped_small n) (λ more. plain_number-grouped n (more_than n more)),
)
