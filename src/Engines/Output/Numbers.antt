-- ===== src/Engines/Output/Numbers.antt =====
-- Numbers printed with thousands separators, read by `_stats_num` and by `float` alone.
use mathlib.Core.List.{append-nil, append_assoc}
use delta_forge_benchmarks.Common.{
  ℕ, zero, suc, ◌+◌, ◌*◌, ◌/◌, ◌%◌, ◌<◌, ◌≤◌, ◌≡◌, refl, sym, subst, ap, ◌∙◌, Bool, true, false,
  not, some, List, [], ◌∷◌, ◌++◌, all, ltb, ltb→lt, if◌then◌else◌, if_elim, ◌==◌, nat_eq, list_eq,
  &&-split, &&-join, arith,
}
use delta_forge_benchmarks.Common.Text.{Text, show, show_fuel, three_digits, grouped_fuel}
use delta_forge_benchmarks.Curve.Streams.{is_digit, read, starts_digit, number}
use delta_forge_benchmarks.Curve.Streams.RoundTrip.{
  read_digit, read-show_fuel, starts_digit-show_fuel,
}
use delta_forge_benchmarks.Engines.Output.{decimal_of, parse_float, without_commas}
use delta_forge_benchmarks.Purge.{strip, lstrip, rstrip, is_white}

pub all-append {ℓ} :
    {A : Type ℓ} (p : A → Bool) (xs ys : List A)
    → all p xs ≡ true
    → all p ys ≡ true
    → all p (xs ++ ys) ≡ true
all-append p [] ys h k = k
all-append p (x ∷ xs) ys h k =
    let (now, later) = &&-split (p x) (all p xs) h in
    &&-join (p x) (all p (xs ++ ys)) now (all-append p xs ys later k)

without_commas-append :
    (s t : Text) → without_commas (s ++ t) ≡ without_commas s ++ without_commas t
without_commas-append [] t = refl
without_commas-append (c ∷ s) t = ground (arith, without_commas-append s t)

digit_ne_comma : (c : ℕ) → is_digit c ≡ true → not (c == 44) ≡ true
digit_ne_comma c h = ground arith

-- A text of digits has no comma.
without_commas_digits : (s : Text) → all is_digit s ≡ true → without_commas s ≡ s
without_commas_digits [] h = refl
without_commas_digits (c ∷ s) h =
    let (now, later) = &&-split (is_digit c) (all is_digit s) h in
    rw (digit_ne_comma c now) (ap (λ t. c ∷ t) (without_commas_digits s later))

is_digit_of : (d : ℕ) → d < 10 → is_digit (48 + d) ≡ true
is_digit_of d h = ground arith

pub all_digits-show_fuel : (f n : ℕ) → all is_digit (show_fuel f n) ≡ true
unfolding show_fuel
all_digits-show_fuel zero n = refl
all_digits-show_fuel (suc f) n =
    if_elim (λ s. all is_digit s ≡ true) (ltb n 10) _ _
      (λ one. &&-join (is_digit (48 + n)) true (is_digit_of n (ltb→lt n 10 one)) refl)
      (λ more.
        all-append is_digit (show_fuel f (n / 10)) ((48 + n % 10) ∷ [])
          (all_digits-show_fuel f (n / 10))
          (&&-join (is_digit (48 + n % 10)) true (is_digit_of (n % 10) (omega arith)) refl))

pub all_digits-three_digits : (r : ℕ) → r < 1000 → all is_digit (three_digits r) ≡ true
all_digits-three_digits r h =
    rw
      (
        is_digit_of (r / 100) (omega arith),
        is_digit_of (r / 10 % 10) (omega arith),
        is_digit_of (r % 10) (omega arith),
      )
      refl

without_commas_comma : (t : Text) → without_commas (44 ∷ t) ≡ without_commas t
unfolding nat_eq
without_commas_comma t = refl

-- The digits of a grouped number.
unfoldable pub bare : ℕ → ℕ → Text
bare f n = without_commas (grouped_fuel f n)

pub bare_step :
    (f n : ℕ)
    → bare (suc f) n ≡ (if ltb n 1000 then show n else bare f (n / 1000) ++ three_digits (n % 1000))
unfolding bare grouped_fuel show
bare_step f n = by_size (ltb n 1000)
  where
    by_size :
        (b : Bool)
        → without_commas
            (if b then show n else grouped_fuel f (n / 1000) ++ 44 ∷ three_digits (n % 1000))
          ≡ (if b
              then show n
              else without_commas (grouped_fuel f (n / 1000)) ++ three_digits (n % 1000))
    by_size true = without_commas_digits (show n) (all_digits-show_fuel (suc n) n)
    by_size false =
        without_commas-append (grouped_fuel f (n / 1000)) (44 ∷ three_digits (n % 1000))
        ∙ ap (λ t. without_commas (grouped_fuel f (n / 1000)) ++ t)
            (without_commas_comma (three_digits (n % 1000))
              ∙ without_commas_digits (three_digits (n % 1000))
                  (all_digits-three_digits (n % 1000) (omega arith)))

all_digits-bare : (f n : ℕ) → all is_digit (bare f n) ≡ true
all_digits-bare zero n = unfold bare grouped_fuel in refl
all_digits-bare (suc f) n =
    subst (λ s. all is_digit s ≡ true) (sym (bare_step f n))
      (if_elim (λ s. all is_digit s ≡ true) (ltb n 1000) _ _
        (λ one. unfold show in all_digits-show_fuel (suc n) n)
        (λ more.
          all-append is_digit (bare f (n / 1000)) (three_digits (n % 1000))
            (all_digits-bare f (n / 1000)) (all_digits-three_digits (n % 1000) (omega arith))))

pub more_than : (n : ℕ) → ltb n 1000 ≡ false → 1000 ≤ n
more_than n h = ground arith

read-three_digits :
    (acc r : ℕ) (rest : Text)
    → r < 1000
    → read acc (three_digits r ++ rest) ≡ read (acc * 1000 + r) rest
read-three_digits acc r rest h =
    let a : r / 100 < 10 = omega arith in
    let b : r / 10 % 10 < 10 = omega arith in
    let c : r % 10 < 10 = omega arith in
    let whole : ((acc * 10 + r / 100) * 10 + r / 10 % 10) * 10 + r % 10 ≡ acc * 1000 + r =
      omega arith in
    read_digit acc (r / 100) _ a
    ∙ read_digit (acc * 10 + r / 100) (r / 10 % 10) _ b
    ∙ read_digit ((acc * 10 + r / 100) * 10 + r / 10 % 10) (r % 10) rest c
    ∙ ap (λ m. read m rest) whole

read-bare : (f n : ℕ) (rest : Text) → n < f → read 0 (bare f n ++ rest) ≡ read n rest
read-bare zero n rest h = absurd (omega arith)
read-bare (suc f) n rest h =
    subst (λ s. read 0 (s ++ rest) ≡ read n rest) (sym (bare_step f n))
      (if_elim (λ s. read 0 (s ++ rest) ≡ read n rest) (ltb n 1000) _ _
        (λ one. unfold show in read-show_fuel (suc n) n rest (omega arith))
        (λ more.
          let large = more_than n more in
          let small : n / 1000 < f = omega (arith, h, large) in
          let last : n % 1000 < 1000 = omega arith in
          let whole : n / 1000 * 1000 + n % 1000 ≡ n = omega arith in
          ap (read 0) (append_assoc (bare f (n / 1000)) (three_digits (n % 1000)) rest)
          ∙ read-bare f (n / 1000) (three_digits (n % 1000) ++ rest) small
          ∙ read-three_digits (n / 1000) (n % 1000) rest last
          ∙ ap (λ m. read m rest) whole))

pub starts_digit-append : (s t : Text) → starts_digit s ≡ true → starts_digit (s ++ t) ≡ true
starts_digit-append [] t h = cc
starts_digit-append (c ∷ s) t h = h

starts_digit-bare : (f n : ℕ) → n < f → starts_digit (bare f n) ≡ true
starts_digit-bare zero n h = absurd (omega arith)
starts_digit-bare (suc f) n h =
    subst (λ s. starts_digit s ≡ true) (sym (bare_step f n))
      (if_elim (λ s. starts_digit s ≡ true) (ltb n 1000) _ _
        (λ one.
          ap starts_digit (sym (append-nil (show n)))
          ∙ (unfold show in starts_digit-show_fuel (suc n) n [] (omega arith)))
        (λ more.
          starts_digit-append (bare f (n / 1000)) _
            (starts_digit-bare f (n / 1000) (omega (arith, h, more_than n more)))))

-- A text of digits has no white space.
digit_ne_white : (c : ℕ) → is_digit c ≡ true → is_white c ≡ false
digit_ne_white c h = ground arith

rstrip_digits : (s : Text) → all is_digit s ≡ true → rstrip s ≡ s
unfolding rstrip
rstrip_digits [] h = refl
rstrip_digits (c ∷ s) h =
    let (now, later) = &&-split (is_digit c) (all is_digit s) h in
    rw (digit_ne_white c now) (ap (λ t. c ∷ t) (rstrip_digits s later))

strip_digits : (s : Text) → all is_digit s ≡ true → strip s ≡ s
unfolding strip lstrip
strip_digits [] h = unfold rstrip in refl
strip_digits (c ∷ s) h =
    let (now, later) = &&-split (is_digit c) (all is_digit s) h in
    rw (digit_ne_white c now) (rstrip_digits (c ∷ s) h)

pub parse_float_solid :
    (s : Text) (n : ℕ) (rest : Text)
    → strip s ≡ s
    → starts_digit s ≡ true
    → read 0 s ≡ (n, rest)
    → parse_float s ≡ decimal_of s (some (n, rest))
unfolding parse_float number
parse_float_solid s n rest solid starts value =
    ap (λ t. decimal_of t (number t)) solid
    ∙ ap (decimal_of s) {y = some (n, rest)} (rw starts (ap some value))

pub parse_float-bare : (n : ℕ) → parse_float (bare (suc n) n) ≡ some (n * 1000)
parse_float-bare n =
    let s = bare (suc n) n in
    parse_float_solid s n [] (strip_digits s (all_digits-bare (suc n) n))
      (starts_digit-bare (suc n) n (omega arith))
      (ap (read 0) (sym (append-nil s))
        ∙ read-bare (suc n) n [] (omega arith)
        ∙ (unfold read in refl))
