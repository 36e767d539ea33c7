-- ===== src/Curve/Streams/RoundTrip.antt =====
-- The names of the stream directories, printed and parsed.
use delta_forge_benchmarks.Common.{
  ℕ, zero, suc, ◌+◌, ◌*◌, ◌<◌, ◌≤◌, ◌≡◌, refl, ap, ◌∙◌, Bool, true, false, Option, none, some, [],
  ◌∷◌, ◌++◌, arith, ltb, if_elim, ltb→lt, Option-cases, nat_eq, list_eq, ◌/◌, ◌%◌, inl, inr, sym,
}
use mathlib.Core.List.{append_assoc, append-nil}
use mathlib.Core.Option.{some-injective, none-ne-some}
use delta_forge_benchmarks.Common.Text.{Text, codes, strip_prefix, show, show_fuel}
use delta_forge_benchmarks.Curve.Streams.{
  is_digit, read, starts_digit, number, digit_then, exact_digits, closed_stamp, stamp_time,
  day_then, stamp_day, timestamp, after_count, after_stamp, stream_index, parse_stream_dir,
}

-- The name that the orchestration gives to a stream's directory.
abbrev pub stream_dir : ℕ → Text → ℕ → Text
stream_dir n ts i = codes "scaleout_n" ++ (show n ++ 95 ∷ (ts ++ 95 ∷ 115 ∷ show i))

pub read_digit :
    (acc d : ℕ) (rest : Text) → d < 10 → read acc ((48 + d) ∷ rest) ≡ read (acc * 10 + d) rest
unfolding read
read_digit acc d rest h = ground arith

pub read-show_fuel : (f n : ℕ) (rest : Text) → n < f → read 0 (show_fuel f n ++ rest) ≡ read n rest
unfolding show_fuel
read-show_fuel zero n rest h = absurd (omega arith)
read-show_fuel (suc f) n rest h =
    if_elim (λ s. read 0 (s ++ rest) ≡ read n rest) (ltb n 10) _ _
      (λ one. read_digit 0 n rest (ltb→lt n 10 one) ∙ ap (λ m. read m rest) (zero_add n))
      (λ more.
        let small : n / 10 < f = omega (arith, more_than n more) in
        let last : n % 10 < 10 = omega arith in
        let whole : n / 10 * 10 + n % 10 ≡ n = omega arith in
        ap (read 0) (append_assoc (show_fuel f (n / 10)) ((48 + n % 10) ∷ []) rest)
        ∙ read-show_fuel f (n / 10) ((48 + n % 10) ∷ rest) small
        ∙ read_digit (n / 10) (n % 10) rest last
        ∙ ap (λ m. read m rest) whole)
  where
    zero_add : (n : ℕ) → 0 * 10 + n ≡ n
    zero_add n = omega arith

    more_than : (n : ℕ) → ltb n 10 ≡ false → 10 ≤ n
    more_than n h = ground arith

pub starts_digit-show_fuel :
    (f n : ℕ) (rest : Text) → n < f → starts_digit (show_fuel f n ++ rest) ≡ true
unfolding show_fuel
starts_digit-show_fuel zero n rest h = absurd (omega arith)
starts_digit-show_fuel (suc f) n rest h =
    if_elim (λ s. starts_digit (s ++ rest) ≡ true) (ltb n 10) _ _ (λ one. digit n (ltb→lt n 10 one))
      (λ more.
        let small : n / 10 < f = omega (arith, more_than n more) in
        ap starts_digit (append_assoc (show_fuel f (n / 10)) ((48 + n % 10) ∷ []) rest)
        ∙ starts_digit-show_fuel f (n / 10) ((48 + n % 10) ∷ rest) small)
  where
    more_than : (n : ℕ) → ltb n 10 ≡ false → 10 ≤ n
    more_than n h = ground arith

    digit : (n : ℕ) → n < 10 → is_digit (48 + n) ≡ true
    digit n h = ground arith

pub number-show :
    (n : ℕ) (rest : Text) → starts_digit rest ≡ false → number (show n ++ rest) ≡ some (n, rest)
unfolding number show read
number-show n rest h =
    rw
      (
        starts_digit-show_fuel (suc n) n rest (omega arith),
        read-show_fuel (suc n) n rest (omega arith),
      )
      (ap some (stop n rest h))
  where
    stop : (n : ℕ) (rest : Text) → starts_digit rest ≡ false → read n rest ≡ (n, rest)
    stop n [] h = refl
    stop n (c ∷ s) h = rw h refl

strip_prefix-append :
    (p s t rest : Text) → strip_prefix p s ≡ some t → strip_prefix p (s ++ rest) ≡ some (t ++ rest)
strip_prefix-append [] s t rest h = ap (λ u. some (u ++ rest)) (some-injective s t h)
strip_prefix-append (c ∷ p) [] t rest h = elim (none-ne-some t h) [ ]
strip_prefix-append (c ∷ p) (d ∷ s) t rest h = ground (arith, strip_prefix-append p s t rest)

-- What one text is read as is read off a longer one, with the rest behind it.
Grows : Text → Option (Text × Text) → Option (Text × Text) → Type 0
Grows rest o o' = (d t : Text) → o ≡ some (d, t) → o' ≡ some (d, t ++ rest)

abbrev with_rest : Text → Text × Text → Option (Text × Text)
with_rest rest (d, t) = some (d, t ++ rest)

some_behind :
    (rest : Text) (p q : Text × Text) → some p ≡ some q → with_rest rest p ≡ with_rest rest q
some_behind rest p q h = ap (with_rest rest) (some-injective p q h)

digit_then-Grows :
    (rest : Text) (b : Bool) (c : ℕ) (o o' : Option (Text × Text))
    → Grows rest o o'
    → Grows rest (digit_then b c o) (digit_then b c o')
unfolding Grows
digit_then-Grows rest false c o o' g d t h = elim (none-ne-some (d, t) h) [ ]
digit_then-Grows rest true c none o' g d t h = elim (none-ne-some (d, t) h) [ ]
digit_then-Grows rest true c (some (e, u)) o' g d t h =
    rw (g e u refl) (some_behind rest (c ∷ e, u) (d, t) h)

exact_digits-Grows :
    (rest : Text) (k : ℕ) (s : Text) → Grows rest (exact_digits k s) (exact_digits k (s ++ rest))
unfolding Grows
exact_digits-Grows rest zero s d t h = some_behind rest ([], s) (d, t) h
exact_digits-Grows rest (suc k) [] d t h = elim (none-ne-some (d, t) h) [ ]
exact_digits-Grows rest (suc k) (c ∷ s) d t h =
    digit_then-Grows rest (is_digit c) c _ _ (exact_digits-Grows rest k s) d t h

closed_stamp-Grows :
    (rest day time s : Text)
    → Grows rest
        (closed_stamp day time (strip_prefix (90 ∷ []) s))
        (closed_stamp day time (strip_prefix (90 ∷ []) (s ++ rest)))
unfolding Grows
closed_stamp-Grows rest day time s d t h = elim (Option-cases (strip_prefix (90 ∷ []) s)) [
  | inl no_z ↦ elim (none-ne-some (d, t) (sym (ap (closed_stamp day time) no_z) ∙ h)) [ ]
  | inr (u, z) ↦
      ap (closed_stamp day time) (strip_prefix-append (90 ∷ []) s u rest z)
      ∙ some_behind rest (_, u) (d, t) (sym (ap (closed_stamp day time) z) ∙ h)
]

stamp_time-Grows :
    (rest day : Text) (o o' : Option (Text × Text))
    → Grows rest o o'
    → Grows rest (stamp_time day o) (stamp_time day o')
unfolding Grows
stamp_time-Grows rest day none o' g d t h = elim (none-ne-some (d, t) h) [ ]
stamp_time-Grows rest day (some (time, s)) o' g d t h =
    ap (stamp_time day) (g time s refl) ∙ closed_stamp-Grows rest day time s d t h

stamp_day-Grows :
    (rest : Text) (o o' : Option (Text × Text))
    → Grows rest o o'
    → Grows rest (stamp_day o) (stamp_day o')
unfolding Grows
stamp_day-Grows rest none o' g d t h = elim (none-ne-some (d, t) h) [ ]
stamp_day-Grows rest (some (day, s)) o' g d t h =
    ap stamp_day (g day s refl) ∙ elim (Option-cases (strip_prefix (84 ∷ []) s)) [
      | inl no_t ↦ elim (none-ne-some (d, t) (sym (ap (day_then day) no_t) ∙ h)) [ ]
      | inr (u, at) ↦
          ap (day_then day) (strip_prefix-append (84 ∷ []) s u rest at)
          ∙ stamp_time-Grows rest day _ _ (exact_digits-Grows rest 6 u) d t
              (sym (ap (day_then day) at) ∙ h)
    ]

-- A time stamp is read the same whatever stands behind it.
timestamp-append :
    (s ts t rest : Text) → timestamp s ≡ some (ts, t) → timestamp (s ++ rest) ≡ some (ts, t ++ rest)
unfolding timestamp Grows
timestamp-append s ts t rest h = stamp_day-Grows rest _ _ (exact_digits-Grows rest 8 s) ts t h

-- The directory that the orchestration names for a stream is read back as that stream's, for every
-- concurrency, index and well-formed time stamp.
pub parse_stream_dir-stream_dir :
    (n i : ℕ) (ts : Text)
    → timestamp ts ≡ some (ts, [])
    → parse_stream_dir (stream_dir n ts i) ≡ some (n, (ts, i))
unfolding parse_stream_dir nat_eq
parse_stream_dir-stream_dir n i ts h =
    ap after_count (number-show n (95 ∷ (ts ++ 95 ∷ 115 ∷ show i)) refl)
    ∙ ap (after_stamp n) (timestamp-append ts ts [] (95 ∷ 115 ∷ show i) h)
    ∙ ap (stream_index n ts) (ap number (sym (append-nil (show i))) ∙ number-show i [] refl)
