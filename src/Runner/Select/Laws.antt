-- ===== src/Runner/Select/Laws.antt =====
-- Lemmas on the selections that `cmd_run` of bench_runner.py accepts.
use delta_forge_benchmarks.Common.{
  ℕ, ◌≡◌, ◌≢◌, refl, sym, ap, ap₂, ◌∙◌, subst, Bool, true, false, ◌&&◌, ◌||◌, Option, none, some,
  List, [], ◌∷◌, map, if◌then◌else◌, ◌==◌, nat_eq, list_eq, keep, any, arith, ==-sound,
}
use mathlib.Core.Bool.{true≢false}
use mathlib.Core.Option.{none-ne-some, some-injective}
use delta_forge_benchmarks.Workloads.Discover.{by_name}
use delta_forge_benchmarks.Common.Text.{Text, codes}
use delta_forge_benchmarks.Steps.Workload.{Workload}
use delta_forge_benchmarks.Runner.Select.{
  ℤ, pos, negsuc, RunArgs, names_of, default_workloads, given_or, find_workload, is_missing,
  find_all, cons_found, Refusal, Checked, refused, accepted, and_then, no_missing, select_workloads,
  set_cold, set_warm, override_cold, override_warm, no_runs, overridden, none_zero, check_zero,
  is_unknown, none_unknown, select_engines, select,
}

accepted_or : {A : Type 0} → A → Checked A → A
accepted_or d (refused r) = d
accepted_or d (accepted a) = a

accepted_injective : {A : Type 0} (a b : A) → accepted a ≡ accepted b → a ≡ b
unfolding accepted_or
accepted_injective a b p = ap (accepted_or a) p

never_accepted : {A : Type 0} (r : Refusal) (a : A) → refused r ≢ accepted a
never_accepted r a p = cc

and_then_accepted :
    {A B : Type 0} (x : Checked A) (f : A → Checked B) (b : B)
    → and_then x f ≡ accepted b
    → (a : A) × (x ≡ accepted a) × (f a ≡ accepted b)
and_then_accepted (refused r) f b h = elim (never_accepted r b h) [ ]
and_then_accepted (accepted a) f b h = (a, refl, h)

keep_none : {A : Type 0} (p : A → Bool) (xs : List A) → keep p xs ≡ [] → any p xs ≡ false
keep_none p [] h = refl
keep_none p (x ∷ xs) h = kept (p x) (keep_none p xs) h
  where
    kept :
        (b : Bool)
        → (keep p xs ≡ [] → any p xs ≡ false)
        → (if b then x ∷ keep p xs else keep p xs) ≡ []
        → (b || any p xs) ≡ false
    kept true later h = cc
    kept false later h = later h

checked_runs :
    (b : Bool) (wls result : List Workload)
    → check_zero b wls ≡ accepted result
    → (b && any no_runs result) ≡ false
checked_runs false wls result h = refl
checked_runs true wls result h = few (keep no_runs wls) refl h
  where
    few :
        (zs : List Workload)
        → keep no_runs wls ≡ zs
        → none_zero wls zs ≡ accepted result
        → any no_runs result ≡ false
    few [] k h =
        subst (λ r. any no_runs r ≡ false) (accepted_injective wls result h)
          (keep_none no_runs wls k)
    few (z ∷ zs) k h = elim (never_accepted _ result h) [ ]

known_engines :
    (s : Text) (es : List Text) → select_engines s ≡ accepted es → any is_unknown es ≡ false
known_engines s es h = few (keep is_unknown (names_of s)) refl h
  where
    few :
        (us : List Text)
        → keep is_unknown (names_of s) ≡ us
        → none_unknown (names_of s) us ≡ accepted es
        → any is_unknown es ≡ false
    few [] k h =
        subst (λ r. any is_unknown r ≡ false) (accepted_injective (names_of s) es h)
          (keep_none is_unknown (names_of s) k)
    few (u ∷ us) k h = elim (never_accepted _ es h) [ ]

abbrev pub title : Workload → Text
title wl = codes wl.name

titles_override :
    (f : Workload → Workload) (wls : List Workload)
    → ((wl : Workload) → title (f wl) ≡ title wl)
    → map title (map f wls) ≡ map title wls
titles_override f [] h = refl
titles_override f (wl ∷ wls) h = ap₂ ◌∷◌ (h wl) (titles_override f wls h)

titles_cold :
    (o : Option ℤ) (wls result : List Workload)
    → override_cold o wls ≡ accepted result
    → map title result ≡ map title wls
titles_cold none wls result h = ap (map title) (sym (accepted_injective wls result h))
titles_cold (some (pos n)) wls result h =
    ap (map title) (sym (accepted_injective _ result h))
    ∙ titles_override (set_cold n) wls (λ wl. refl)
titles_cold (some (negsuc n)) wls result h = elim (never_accepted _ result h) [ ]

titles_warm :
    (o : Option ℤ) (wls result : List Workload)
    → override_warm o wls ≡ accepted result
    → map title result ≡ map title wls
titles_warm none wls result h = ap (map title) (sym (accepted_injective wls result h))
titles_warm (some (pos n)) wls result h =
    ap (map title) (sym (accepted_injective _ result h))
    ∙ titles_override (set_warm n) wls (λ wl. refl)
titles_warm (some (negsuc n)) wls result h = elim (never_accepted _ result h) [ ]

titles_checked :
    (b : Bool) (wls result : List Workload) → check_zero b wls ≡ accepted result → result ≡ wls
titles_checked false wls result h = sym (accepted_injective wls result h)
titles_checked true wls result h = few (keep no_runs wls) h
  where
    few : (zs : List Workload) → none_zero wls zs ≡ accepted result → result ≡ wls
    few [] h = sym (accepted_injective wls result h)
    few (z ∷ zs) h = elim (never_accepted _ result h) [ ]

-- A workload that is found by a name has the name.
title_found :
    (w : Text) (wls : List Workload) (wl : Workload)
    → find_workload w (by_name wls) ≡ some wl
    → title wl ≡ w
title_found w [] wl h = elim (none-ne-some wl h) [ ]
title_found w (v ∷ wls) wl h = by_test (title_found w wls wl) (w == codes v.name) refl h
  where
    by_test :
        (find_workload w (by_name wls) ≡ some wl → title wl ≡ w)
        → (b : Bool) → (w == codes v.name) ≡ b
        → (if b then some v else find_workload w (by_name wls)) ≡ some wl
        → title wl ≡ w
    by_test later true same h =
        ap title (sym (some-injective v wl h)) ∙ sym (==-sound w (codes v.name) same)
    by_test later false other h = later h

cons_title :
    (o : Option Workload) (w : Text) (rest : List Workload)
    → ((wl : Workload) → o ≡ some wl → title wl ≡ w)
    → (elim o [ none ↦ true | some _ ↦ false ]) ≡ false
    → map title (cons_found o rest) ≡ w ∷ map title rest
cons_title none w rest f h = elim (true≢false h) [ ]
cons_title (some wl) w rest f h = ap (λ t. t ∷ map title rest) (f wl refl)

titles_found :
    (wls : List Workload) (ws : List Text)
    → any (is_missing (by_name wls)) ws ≡ false
    → map title (find_all (by_name wls) ws) ≡ ws
titles_found wls [] h = refl
titles_found wls (w ∷ ws) h =
    let (now, later) =
      or_false (is_missing (by_name wls) w) (any (is_missing (by_name wls)) ws) h in
    cons_title (find_workload w (by_name wls)) w (find_all (by_name wls) ws) (title_found w wls) now
    ∙ ap (λ l. w ∷ l) (titles_found wls ws later)
  where
    or_false : (a b : Bool) → (a || b) ≡ false → (a ≡ false) × (b ≡ false)
    or_false a b h = ground arith

titles_selected :
    (wls : List Workload) (c : ℕ) (s : Text) (result : List Workload)
    → select_workloads (by_name wls) (c ∷ s) ≡ accepted result
    → map title result ≡ names_of (c ∷ s)
titles_selected wls c s result h = few (keep (is_missing (by_name wls)) (names_of (c ∷ s))) refl h
  where
    few :
        (us : List Text)
        → keep (is_missing (by_name wls)) (names_of (c ∷ s)) ≡ us
        → no_missing (by_name wls) (names_of (c ∷ s)) us ≡ accepted result
        → map title result ≡ names_of (c ∷ s)
    few [] k h =
        ap (map title) (sym (accepted_injective _ result h))
        ∙ titles_found wls (names_of (c ∷ s))
            (keep_none (is_missing (by_name wls)) (names_of (c ∷ s)) k)
    few (u ∷ us) k h = elim (never_accepted _ result h) [ ]

-- A selection that is accepted, from the registry of some workloads and for a list of workloads that
-- is not the empty text, runs exactly the workloads that were asked for, in the order of the list; its
-- engines are all known; and where a number of runs was given, every workload has at least one run.
pub select-accepted :
    (wls : List Workload) (args : RunArgs) (c : ℕ) (s : Text) (result : List Workload)
    (engines : List Text)
    → given_or args.workloads default_workloads ≡ c ∷ s
    → select (by_name wls) args ≡ accepted (result, engines)
    → (map title result ≡ names_of (c ∷ s))
      × (any is_unknown engines ≡ false)
      × ((overridden args && any no_runs result) ≡ false)
unfolding select
select-accepted wls args c s result engines asked h =
    let (found, p, h1) = and_then_accepted _ _ _ h in
    let (cold, q, h2) = and_then_accepted _ _ _ h1 in
    let (warm, r, h3) = and_then_accepted _ _ _ h2 in
    let (checked, t, h4) = and_then_accepted _ _ _ h3 in
    let (es, u, h5) = and_then_accepted _ _ _ h4 in
    let both = accepted_injective (checked, es) (result, engines) h5 in
    let same : checked ≡ result = ap (λ x. x.0) both in
    let same_es : es ≡ engines = ap (λ x. x.1) both in
    (
      ap (map title) (sym same)
          ∙ ap (map title) (titles_checked (overridden args) warm checked t)
          ∙ titles_warm args.warm_runs cold warm r
          ∙ titles_cold args.cold_runs found cold q
          ∙ titles_selected wls c s found (ap (select_workloads (by_name wls)) (sym asked) ∙ p),
      subst (λ l. any is_unknown l ≡ false) same_es (known_engines _ es u),
      subst (λ l. (overridden args && any no_runs l) ≡ false) same
          (checked_runs (overridden args) warm checked t),
    )
