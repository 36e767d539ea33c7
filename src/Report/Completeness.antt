-- ===== src/Report/Completeness.antt =====
-- The hashes that `correctness_check` of reports/generate_report.py files, and agreeing engines.
use mathlib.Core.Bool.{true≢false}
use mathlib.Core.Option.{none-ne-some}
use delta_forge_benchmarks.Common.{
  ◌≡◌, refl, sym, ap, ◌∙◌, subst, Bool, true, false, Option, none, some, List, [], ◌∷◌, String,
  arith, if◌then◌else◌, ◌==◌, string_eq, pair_eq, contains, length, ltb, ◌≤◌, Bool-cases, ==-sound,
  ==_refl, inl, inr, ◌||◌, if_elim,
}
use delta_forge_benchmarks.Common.Dict.{
  Dict, lookup, lookup_or, insert, values, lookup_or-cons, NodupKeys, insert-NodupKeys,
}
use delta_forge_benchmarks.Report.{
  CellKey, CellStats, StepKey, hash_added, add_hash, collect_hashes, unique, issues,
  correctness_check,
}
use delta_forge_benchmarks.Report.Agreement.{hash_for, recorded, or_else, recorded-collect_hashes}

-- No step and no engine of a step stands twice.
AllNodup : Dict StepKey (Dict String String) → Type 0
AllNodup [] = Unit
AllNodup ((step, hashes) ∷ by_step) = NodupKeys hashes × AllNodup by_step

AllNodup-lookup :
    (key : StepKey) (by_step : Dict StepKey (Dict String String))
    → AllNodup by_step
    → NodupKeys (lookup_or key [] by_step)
unfolding AllNodup
AllNodup-lookup key [] u = tt
AllNodup-lookup key ((j, hashes) ∷ by_step) (now, later) =
    subst NodupKeys (sym (lookup_or-cons key j hashes [] by_step))
      (if_elim NodupKeys (key == j) _ _ (λ _. now) (λ _. AllNodup-lookup key by_step later))

AllNodup-insert :
    (key : StepKey) (hashes : Dict String String) (by_step : Dict StepKey (Dict String String))
    → NodupKeys hashes
    → AllNodup by_step
    → AllNodup (insert key hashes by_step)
unfolding AllNodup
AllNodup-insert key hashes [] v u = (v, tt)
AllNodup-insert key hashes ((j, old) ∷ by_step) v (now, later) =
    if_elim AllNodup (key == j) _ _ (λ _. (v, later))
      (λ _. (now, AllNodup-insert key hashes by_step v later))

IsFiled : Dict StepKey (Dict String String) → Type 0
IsFiled by_step = NodupKeys by_step × AllNodup by_step

hash_added-IsFiled :
    (by_step : Dict StepKey (Dict String String)) (c : CellStats) (o : Option String)
    → IsFiled by_step
    → IsFiled (hash_added by_step c o)
unfolding IsFiled
hash_added-IsFiled by_step c none u = u
hash_added-IsFiled by_step c (some h) (u, v) =
    if_elim IsFiled (h == "") _ _ (λ _. (u, v))
      (λ _.
        let key : StepKey = (c.workload, c.step_id) in
        let hashes = insert c.engine h (lookup_or key [] by_step) in
        (
          insert-NodupKeys key hashes by_step u,
          AllNodup-insert key hashes by_step
              (insert-NodupKeys c.engine h (lookup_or key [] by_step)
                (AllNodup-lookup key by_step v))
              v,
        ))

collect_hashes-IsFiled :
    (cs : List CellStats) (by_step : Dict StepKey (Dict String String))
    → IsFiled by_step
    → IsFiled (collect_hashes by_step cs)
unfolding collect_hashes add_hash
collect_hashes-IsFiled [] by_step u = u
collect_hashes-IsFiled (c ∷ cs) by_step u =
    collect_hashes-IsFiled cs (hash_added by_step c c.result_sha256)
      (hash_added-IsFiled by_step c c.result_sha256 u)

-- A hash that is found behind an entry with another engine is found.
behind_entry :
    (e f h k : String) (hashes : Dict String String)
    → lookup e hashes ≡ none
    → lookup f hashes ≡ some h
    → lookup f ((e, k) ∷ hashes) ≡ some h
behind_entry e f h k hashes fresh found = elim (Bool-cases (f == e)) [
  | inl same ↦
      elim (none-ne-some h
        (sym fresh ∙ ap (λ g. lookup g hashes) (sym (==-sound f e same)) ∙ found)) [ ]
  | inr other ↦ rw other found
]

-- A hash among the values is that of some engine.
holder :
    (h : String) (hashes : Dict String String)
    → NodupKeys hashes
    → contains (values hashes) h ≡ true
    → (e : String) × (lookup e hashes ≡ some h)
holder h [] u p = elim (true≢false (sym p)) [ ]
holder h ((e, k) ∷ hashes) (fresh, u) p = by_test (h == k) refl p (holder h hashes u)
  where
    by_test :
        (b : Bool)
        → (h == k) ≡ b
        → (b || contains (values hashes) h) ≡ true
        → (contains (values hashes) h ≡ true → (f : String) × (lookup f hashes ≡ some h))
        → (f : String) × (lookup f ((e, k) ∷ hashes) ≡ some h)
    by_test true same q later = (e, rw (==_refl e) (ap some (sym (==-sound h k same))))
    by_test false other q later =
        let (f, found) = later q in (f, behind_entry e f h k hashes fresh found)

or_true_right : (a b : Bool) → b ≡ true → (a || b) ≡ true
or_true_right a b h = ground arith

or_true_left : (a b : Bool) → a ≡ true → (a || b) ≡ true
or_true_left a b h = ground arith

in-unique : (hs : List String) (a : String) → contains (unique hs) a ≡ true → contains hs a ≡ true
unfolding unique
in-unique [] a h = h
in-unique (x ∷ hs) a h = by_test (contains (unique hs) x) h (in-unique hs a)
  where
    by_test :
        (b : Bool)
        → contains (if b then unique hs else x ∷ unique hs) a ≡ true
        → (contains (unique hs) a ≡ true → contains hs a ≡ true)
        → (a == x || contains hs a) ≡ true
    by_test true q later = or_true_right (a == x) (contains hs a) (later q)
    by_test false q later = first_or (a == x) q later
      where
        first_or :
            (b : Bool)
            → (b || contains (unique hs) a) ≡ true
            → (contains (unique hs) a ≡ true → contains hs a ≡ true)
            → (b || contains hs a) ≡ true
        first_or true q later = refl
        first_or false q later = later q

-- A list in which all elements are the same has at most one of them.
unique_small :
    (hs : List String)
    → ((a b : String) → contains hs a ≡ true → contains hs b ≡ true → a ≡ b)
    → length (unique hs) ≤ 1
unfolding unique
unique_small [] h = omega arith
unique_small (x ∷ hs) h =
    if_elim (λ (l : List String). length l ≤ 1) (contains (unique hs) x) _ _
      (λ _.
        unique_small hs
          (λ a b p q. h a b (or_true_right (a == x) _ p) (or_true_right (b == x) _ q)))
      (λ new. alone (unique hs) new (λ a p. in-unique hs a p))
  where
    alone :
        (l : List String)
        → contains l x ≡ false
        → ((a : String) → contains l a ≡ true → contains hs a ≡ true)
        → length (x ∷ l) ≤ 1
    alone [] new sub = omega arith
    alone (y ∷ l) new sub =
        let inside = sub y (or_true_left (y == y) (contains l y) (==_refl y)) in
        let same : x ≡ y =
          h x y (or_true_left (x == x) (contains hs x) (==_refl x))
            (or_true_right (y == x) (contains hs y) inside) in
        elim (true≢false (
          sym (or_true_left (x == y) (contains l x) (subst (λ z. (x == z) ≡ true) same (==_refl x)))
          ∙ new)) [ ]

no_issue :
    (by_step : Dict StepKey (Dict String String))
    → IsFiled by_step
    → ((step : StepKey) (e f h k : String)
        → recorded step e by_step ≡ some h
        → recorded step f by_step ≡ some k
        → h ≡ k)
    → issues by_step ≡ []
unfolding issues IsFiled AllNodup
no_issue [] u agree = refl
no_issue ((key, hashes) ∷ by_step) ((fresh, u), (v, w)) agree =
    rw
      (few_ltb _ (
        unique_small (values hashes) (λ a b p q.
          let (e, found) = holder a hashes v p in
          let (f, found') = holder b hashes v q in
          agree key e f a b (here e a found) (here f b found'))))
      (no_issue by_step (u, w)
        (λ step e f h k p q. agree step e f h k (there step e h p) (there step f k q)))
  where
    few_ltb : (n : _) → n ≤ 1 → ltb 1 n ≡ false
    few_ltb n h = ground arith

    here :
        (e a : String)
        → lookup e hashes ≡ some a
        → recorded key e ((key, hashes) ∷ by_step) ≡ some a
    here e a found =
        ap (lookup e) (lookup_or-cons key key hashes [] by_step ∙ rw (==_refl key) refl) ∙ found

    there :
        (step : StepKey) (e h : String)
        → recorded step e by_step ≡ some h
        → recorded step e ((key, hashes) ∷ by_step) ≡ some h
    there step e h p = elim (Bool-cases (step == key)) [
      | inl same ↦
          elim (none-ne-some h (
            sym (ap (λ o. lookup e (elim o [ none ↦ [] | some d ↦ d ])) fresh)
            ∙ ap (λ s. recorded s e by_step) (sym (==-sound step key same))
            ∙ p)) [ ]
      | inr other ↦ ap (lookup e) (lookup_or-cons step key hashes [] by_step ∙ rw other refl) ∙ p
    ]

-- Where any two engines that have a hash for a step have the same, the check finds no issue.
pub no_issue-correctness_check :
    (cells : Dict CellKey CellStats)
    → ((step : StepKey) (e f h k : String)
        → hash_for step e (values cells) ≡ some h
        → hash_for step f (values cells) ≡ some k
        → h ≡ k)
    → correctness_check cells ≡ []
unfolding correctness_check IsFiled AllNodup
no_issue-correctness_check cells agree =
    no_issue (collect_hashes [] (values cells)) (collect_hashes-IsFiled (values cells) [] (tt, tt))
      (λ step e f h k p q. agree step e f h k (given step e h p) (given step f k q))
  where
    or_else_none : (o : Option String) → o ≡ or_else o none
    or_else_none none = refl
    or_else_none (some h) = refl

    given :
        (step : StepKey) (e h : String)
        → recorded step e (collect_hashes [] (values cells)) ≡ some h
        → hash_for step e (values cells) ≡ some h
    given step e h p =
        or_else_none (hash_for step e (values cells))
        ∙ sym (recorded-collect_hashes step e (values cells) [])
        ∙ p
