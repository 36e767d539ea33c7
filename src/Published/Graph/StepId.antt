-- ===== src/Published/Graph/StepId.antt =====
-- `_STEP_RE` of reports/build_graph_gpu_report.py.
use delta_forge_benchmarks.Common.{
  ℕ, Bool, true, false, not, ◌&&◌, ◌||◌, ◌≡◌, refl, ap, ◌∙◌, Option, none, some, [], ◌∷◌, ◌++◌, all,
  leb, &&-split, if◌then◌else◌, ◌==◌, nat_eq, list_eq, arith,
}
use delta_forge_benchmarks.Common.Text.{Text, codes, show, strip_prefix}
use delta_forge_benchmarks.Curve.Streams.{is_digit, number}
use delta_forge_benchmarks.Curve.Streams.RoundTrip.{number-show}
use delta_forge_benchmarks.Workloads.Graph.Steps.{Device, cpu, gpu, device_text, step_id}

-- `[a-z0-9_]`
abbrev pub is_name_char : ℕ → Bool
is_name_char c = (leb 97 c && leb c 122) || is_digit c || c == 95

-- `(cpu|gpu)$`: the end is that of the text, or a line break at it.
abbrev pub device_of : Text → Option Device
device_of s =
    if s == codes "cpu" || s == codes "cpu\n"
    then some cpu
    else if s == codes "gpu" || s == codes "gpu\n"
    then some gpu
    else none

abbrev sized : ℕ → Option Device → Option (ℕ × Device)
sized m none = none
sized m (some d) = some (m, d)

abbrev after_size : Option (ℕ × Text) → Option (ℕ × Device)
after_size none = none
after_size (some (m, s)) = elim (strip_prefix (codes "m__") s) [
  | none ↦ none
  | some t ↦ sized m (device_of t)
]

abbrev after_bars : Option Text → Option (ℕ × Device)
after_bars none = none
after_bars (some s) = after_size (number s)

-- `__(\d+)m__(cpu|gpu)$`
unfoldable pub tail_of : Text → Option (ℕ × Device)
unfolding number
tail_of s = after_bars (strip_prefix (codes "__") s)

abbrev pub StepKey : Type 0
StepKey = Text × (ℕ × Device)

abbrev with_letter : ℕ → Option StepKey → Option StepKey
with_letter c none = none
with_letter c (some (algo, t)) = some (c ∷ algo, t)

abbrev or_longer : ℕ → Option (ℕ × Device) → Option StepKey → Option StepKey
or_longer c none longer = with_letter c longer
or_longer c (some t) longer = some (c ∷ [], t)

-- `match` of the whole expression: the name of the algorithm is the shortest that the rest fits.
unfoldable pub parse_step_id : Text → Option StepKey
unfolding tail_of
parse_step_id [] = none
parse_step_id (c ∷ s) =
    let longer = parse_step_id s in if is_name_char c then or_longer c (tail_of s) longer else none

-- No two bars stand together.
abbrev pub single_bars : Text → Bool
single_bars [] = true
single_bars (c ∷ []) = true
single_bars (c ∷ d ∷ s) = not (c == 95 && d == 95) && single_bars (d ∷ s)

-- A name as the workload's algorithms have: not empty, of small letters, digits and bars, and with no
-- two bars together behind its first character.
abbrev pub is_key : Text → Bool
is_key [] = false
is_key (c ∷ s) = all is_name_char (c ∷ s) && single_bars s

device_of-device_text : (d : Device) → device_of (device_text d) ≡ some d
unfolding list_eq nat_eq
device_of-device_text cpu = refl
device_of-device_text gpu = refl

abbrev rest_of : ℕ → Device → Text
rest_of m d = 95 ∷ 95 ∷ (show m ++ (109 ∷ 95 ∷ 95 ∷ device_text d))

tail_of-rest_of : (m : ℕ) (d : Device) → tail_of (rest_of m d) ≡ some (m, d)
unfolding tail_of nat_eq
tail_of-rest_of m d =
    ap after_size (number-show m (109 ∷ 95 ∷ 95 ∷ device_text d) refl)
    ∙ ap (sized m) (device_of-device_text d)

-- The rest does not begin within the name.
tail_of-early :
    (c : ℕ) (s : Text) (m : ℕ) (d : Device)
    → single_bars (c ∷ s) ≡ true
    → tail_of (c ∷ s ++ rest_of m d) ≡ none
unfolding tail_of nat_eq number
tail_of-early c [] m d h = by_bar (95 == c)
  where
    by_bar :
        (b : Bool)
        → after_bars (if b then some (95 ∷ (show m ++ (109 ∷ 95 ∷ 95 ∷ device_text d))) else none)
          ≡ none
    by_bar true = refl
    by_bar false = refl
tail_of-early c (e ∷ s) m d h = by_bars (95 == c) (95 == e) (apart c e h)
  where
    apart : (c e : ℕ) → single_bars (c ∷ e ∷ s) ≡ true → ((95 == c) && (95 == e)) ≡ false
    apart c e h = ground arith

    by_bars :
        (a b : Bool)
        → (a && b) ≡ false
        → after_bars (if a then (if b then some (s ++ rest_of m d) else none) else none) ≡ none
    by_bars true true h = cc
    by_bars true false h = refl
    by_bars false b h = refl

-- The id of a step is read back as the algorithm, the size and the device that it was made of.
pub parse_step_id-step_id :
    (key : Text) (m : ℕ) (d : Device)
    → is_key key ≡ true
    → parse_step_id (step_id key m d) ≡ some (key, (m, d))
unfolding step_id parse_step_id
parse_step_id-step_id [] m d h = cc
parse_step_id-step_id (c ∷ s) m d h = from c s (&&-split _ _ h).0 (&&-split _ _ h).1
  where
    later : (e : ℕ) (s : Text) → single_bars (e ∷ s) ≡ true → single_bars s ≡ true
    later e [] h = refl
    later e (f ∷ s) h = (&&-split _ _ h).1

    from :
        (c : ℕ) (s : Text)
        → all is_name_char (c ∷ s) ≡ true
        → single_bars s ≡ true
        → parse_step_id (c ∷ s ++ rest_of m d) ≡ some (c ∷ s, (m, d))
    from c [] letters single =
        let (letter, _) = &&-split (is_name_char c) true letters in
        rw (letter, tail_of-rest_of m d) refl
    from c (e ∷ s) letters single =
        let (letter, more) = &&-split (is_name_char c) (all is_name_char (e ∷ s)) letters in
        rw (letter, tail_of-early e s m d single)
          (ap (with_letter c) (from e s more (later e s single)))
