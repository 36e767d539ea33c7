-- ===== src/Report/Agreement.antt =====
-- The hashes that the cells give, against what `correctness_check` of reports/generate_report.py
-- files.
use mathlib.Core.Option.{some-injective, none-ne-some}
use mathlib.Core.Bool.{true≢false}
use delta_forge_benchmarks.Common.{
  suc, ℕ, ◌≡◌, refl, sym, ap, ◌∙◌, Bool, true, false, Option, none, some, List, [], ◌∷◌, String,
  arith, if◌then◌else◌, ◌==◌, string_eq, pair_eq, contains, length, ltb, Bool-cases, ==-sound,
  ==_refl, inl, inr, ◌||◌, ◌≤◌, subst,
}
use delta_forge_benchmarks.Common.Dict.{
  Dict, lookup, lookup_or, insert, values, lookup-insert, lookup_or-insert, lookup_or-cons,
}
use delta_forge_benchmarks.Report.{
  CellKey, CellStats, StepKey, Issue, hash_added, add_hash, collect_hashes, unique, issues,
  correctness_check,
}

abbrev hash_given : StepKey → String → CellStats → Option String → Option String
hash_given step e c none = none
hash_given step e c (some h) =
    if h == ""
    then none
    else if step == (c.workload, c.step_id)
    then (if e == c.engine then some h else none)
    else none

-- The hash that a cell gives for a step on an engine; an empty text is no hash.
abbrev pub own_hash : StepKey → String → CellStats → Option String
own_hash step e c = hash_given step e c c.result_sha256

abbrev pub or_else : Option String → Option String → Option String
or_else none o = o
or_else (some h) o = some h

-- The hash of a step on an engine: the last one that a cell gives.
abbrev pub hash_for : StepKey → String → List CellStats → Option String
hash_for step e [] = none
hash_for step e (c ∷ cs) = or_else (hash_for step e cs) (own_hash step e c)

abbrev pub recorded : StepKey → String → Dict StepKey (Dict String String) → Option String
recorded step e by_step = lookup e (lookup_or step [] by_step)

recorded-insert :
    (step key : StepKey) (e engine h : String) (by_step : Dict StepKey (Dict String String))
    → recorded step e (insert key (insert engine h (lookup_or key [] by_step)) by_step) ≡ (
        if step == key
        then (if e == engine then some h else recorded step e by_step)
        else recorded step e by_step)
recorded-insert step key e engine h by_step = elim (Bool-cases (step == key)) [
  | inl same ↦
      rw (lookup_or-insert, same, ==-sound step key same)
        (lookup-insert e engine h (lookup_or key [] by_step))
  | inr other ↦ rw (lookup_or-insert, other) refl
]

or_else_if :
    (a b : Bool) (h : String) (o : Option String)
    → (if a then (if b then some h else o) else o)
      ≡ or_else (if a then (if b then some h else none) else none) o
or_else_if true true h o = refl
or_else_if true false h o = refl
or_else_if false b h o = refl

recorded-hash_added :
    (step : StepKey) (e : String) (by_step : Dict StepKey (Dict String String)) (c : CellStats)
    (o : Option String)
    → recorded step e (hash_added by_step c o)
      ≡ or_else (hash_given step e c o) (recorded step e by_step)
recorded-hash_added step e by_step c none = refl
recorded-hash_added step e by_step c (some h) = elim (Bool-cases (h == "")) [
  | inl empty ↦ rw empty refl
  | inr given ↦
      rw (given, recorded-insert step (c.workload, c.step_id) e c.engine h by_step)
        (or_else_if (step == (c.workload, c.step_id)) (e == c.engine) h (recorded step e by_step))
]

recorded-add_hash :
    (step : StepKey) (e : String) (by_step : Dict StepKey (Dict String String)) (c : CellStats)
    → recorded step e (add_hash by_step c) ≡ or_else (own_hash step e c) (recorded step e by_step)
unfolding add_hash
recorded-add_hash step e by_step c = recorded-hash_added step e by_step c c.result_sha256

or_else_assoc : (o p q : Option String) → or_else (or_else o p) q ≡ or_else o (or_else p q)
or_else_assoc none p q = refl
or_else_assoc (some h) p q = refl

pub recorded-collect_hashes :
    (step : StepKey) (e : String) (cs : List CellStats)
    (by_step : Dict StepKey (Dict String String))
    → recorded step e (collect_hashes by_step cs)
      ≡ or_else (hash_for step e cs) (recorded step e by_step)
unfolding collect_hashes
recorded-collect_hashes step e [] by_step = refl
recorded-collect_hashes step e (c ∷ cs) by_step =
    recorded-collect_hashes step e cs (add_hash by_step c)
    ∙ ap (or_else (hash_for step e cs)) (recorded-add_hash step e by_step c)
    ∙ sym (or_else_assoc (hash_for step e cs) (own_hash step e c) (recorded step e by_step))

or_true : (b : Bool) → (b || true) ≡ true
or_true b = ground arith

contains-cons :
    (x a : String) (xs : List String) → contains xs a ≡ true → contains (x ∷ xs) a ≡ true
contains-cons x a xs h = rw h (or_true (a == x))

contains-unique :
    (hs : List String) (a : String) → contains hs a ≡ true → contains (unique hs) a ≡ true
unfolding unique
contains-unique [] a h = h
contains-unique (x ∷ hs) a h = elim (Bool-cases (contains (unique hs) x)) [
  | inl old ↦ rw old (
      or-cases (a == x) (contains hs a) h
        (λ same. subst (λ y. contains (unique hs) y ≡ true) (sym (==-sound a x same)) old)
        (λ later. contains-unique hs a later))
  | inr new ↦ rw new (
      or-cases (a == x) (contains hs a) h (λ same. rw same refl)
        (λ later. contains-cons x a (unique hs) (contains-unique hs a later)))
]
  where
    or-cases : {P : Type 0} (b c : Bool) → (b || c) ≡ true → (b ≡ true → P) → (c ≡ true → P) → P
    or-cases true c h f g = f refl
    or-cases false c h f g = g h

one_left :
    (xs : List String) (a b : String)
    → length xs ≤ 1
    → contains xs a ≡ true
    → contains xs b ≡ true
    → a ≡ b
one_left [] a b h p q = elim (true≢false (sym p)) [ ]
one_left (x ∷ []) a b h p q = ==-sound a x (only (a == x) p) ∙ sym (==-sound b x (only (b == x) q))
  where
    only : (c : Bool) → (c || false) ≡ true → c ≡ true
    only true h = refl
    only false h = h
one_left (x ∷ y ∷ xs) a b h p q = elim (few h) [ ]
  where
    few : ¬ (suc (suc (length xs)) ≤ 1)
    few h = omega arith

contains-values :
    (e h : String) (hashes : Dict String String)
    → lookup e hashes ≡ some h
    → contains (values hashes) h ≡ true
contains-values e h [] p = elim (none-ne-some h p) [ ]
contains-values e h ((f, k) ∷ hashes) p = found (e == f) (contains-values e h hashes) p
  where
    found :
        (b : Bool)
        → (lookup e hashes ≡ some h → contains (values hashes) h ≡ true)
        → (if b then some k else lookup e hashes) ≡ some h
        → contains (k ∷ values hashes) h ≡ true
    found true rec p = rw (some-injective k h p, ==_refl h) refl
    found false rec p = contains-cons k h (values hashes) (rec p)

agree_if_no_issue :
    (step : StepKey) (e f h k : String) (by_step : Dict StepKey (Dict String String))
    → issues by_step ≡ []
    → recorded step e by_step ≡ some h
    → recorded step f by_step ≡ some k
    → h ≡ k
unfolding issues
agree_if_no_issue step e f h k [] no_issue p q = elim (none-ne-some h p) [ ]
agree_if_no_issue step e f h k ((key, hashes) ∷ by_step) no_issue p q =
    let (few, rest) =
      no_issue_split (ltb 1 (length (unique (values hashes)))) _ (issues by_step) no_issue in
    elim (Bool-cases (step == key)) [
      | inl same ↦
          one_left (unique (values hashes)) h k (few_le _ few)
            (contains-unique (values hashes) h (contains-values e h hashes (here same e h p)))
            (contains-unique (values hashes) k (contains-values f k hashes (here same f k q)))
      | inr other ↦
          agree_if_no_issue step e f h k by_step rest (there other e h p) (there other f k q)
    ]
  where
    no_issue_split :
        (b : Bool) (i : Issue) (is : List Issue)
        → (if b then i ∷ is else is) ≡ []
        → (b ≡ false) × (is ≡ [])
    no_issue_split true i is p = cc
    no_issue_split false i is p = (refl, p)

    few_le : (n : ℕ) → ltb 1 n ≡ false → n ≤ 1
    few_le n h = ground arith

    here :
        step == key ≡ true
        → (e : String) (h : String) → recorded step e ((key, hashes) ∷ by_step) ≡ some h
        → lookup e hashes ≡ some h
    here same e h p =
        sym (ap (lookup e) (lookup_or-cons step key hashes [] by_step) ∙ rw same refl) ∙ p

    there :
        step == key ≡ false
        → (e : String) (h : String) → recorded step e ((key, hashes) ∷ by_step) ≡ some h
        → recorded step e by_step ≡ some h
    there other e h p =
        sym (ap (lookup e) (lookup_or-cons step key hashes [] by_step) ∙ rw other refl) ∙ p

-- A check without an issue means that any two engines that have a hash for a step have the same.
pub agree-correctness_check :
    (cells : Dict CellKey CellStats) (step : StepKey) (e f h k : String)
    → correctness_check cells ≡ []
    → hash_for step e (values cells) ≡ some h
    → hash_for step f (values cells) ≡ some k
    → h ≡ k
unfolding correctness_check
agree-correctness_check cells step e f h k no_issue p q =
    agree_if_no_issue step e f h k (collect_hashes [] (values cells)) no_issue (found e h p)
      (found f k q)
  where
    found :
        (e h : String)
        → hash_for step e (values cells) ≡ some h
        → recorded step e (collect_hashes [] (values cells)) ≡ some h
    found e h p = recorded-collect_hashes step e (values cells) [] ∙ ap (λ o. or_else o none) p
