-- ===== src/Runner/Menu/Laws.antt =====
-- Lemmas on the outcome of `run_menu` in bench_runner.py.
use mathlib.Core.Option.{none-ne-some, some-injective}
use delta_forge_benchmarks.Common.{
  ℕ, zero, suc, ◌-◌, ◌≤◌, ◌≡◌, refl, sym, Bool, true, false, ◌&&◌, ◌||◌, Option, none, some, List,
  [], ◌∷◌, if◌then◌else◌, ◌==◌, nat_eq, list_eq, contains, leb, arith, get_elem?, subst, ==_refl,
}
use delta_forge_benchmarks.Common.Text.{Text, codes}
use delta_forge_benchmarks.Runner.Select.{ℤ, pos, negsuc}
use delta_forge_benchmarks.Runner.Menu.{
  int, on_choice, tries, answer, next_line, choose_engines, choose_scale, engine_presets,
  picked_preset, positive, run_menu,
}

kept_choice :
    {A : Type 0} (P : A → Type 0) (o : Option A) (rest : List Text) (again : A × List Text)
    → P again.0
    → ((a : A) → o ≡ some a → P a)
    → P (on_choice o rest again).0
kept_choice P none rest again h f = h
kept_choice P (some a) rest again h f = f a refl

-- What holds of what is kept and of every choice holds of the outcome of the tries.
tries_keep :
    {A : Type 0} (P : A → Type 0) (choose : Text → Option A) (default : Text) (kept : A)
    → P kept
    → ((raw : Text) (a : A) → choose raw ≡ some a → P a)
    → (k : ℕ) (lines : List Text) → P (tries choose default kept k lines).0
unfolding tries
tries_keep P choose default kept h f zero lines = h
tries_keep P choose default kept h f (suc k) lines =
    let (line, rest) = next_line lines in
    kept_choice P (choose (answer line default)) rest (tries choose default kept k rest)
      (tries_keep P choose default kept h f k rest) (f (answer line default))

listed : (xs : List Text) (i : ℕ) (e : Text) → get_elem? xs i ≡ some e → contains xs e ≡ true
listed [] i e h = elim (none-ne-some e h) [ ]
listed (x ∷ xs) zero e h = head_listed (e == x) (same e x (sym (some-injective x e h)))
  where
    same : (e x : Text) → e ≡ x → (e == x) ≡ true
    same e x p = subst (λ y. (e == y) ≡ true) p (==_refl e)

    head_listed : (b : Bool) → b ≡ true → (b || contains xs e) ≡ true
    head_listed b p = rw p refl
listed (x ∷ xs) (suc i) e h = later (e == x) (listed xs i e h)
  where
    later : (b : Bool) → contains xs e ≡ true → (b || contains xs e) ≡ true
    later true p = refl
    later false p = p

listed_if :
    (b : Bool) (xs : List Text) (i : ℕ) (e : Text)
    → (if b then get_elem? xs i else none) ≡ some e
    → contains xs e ≡ true
listed_if true xs i e h = listed xs i e h
listed_if false xs i e h = elim (none-ne-some e h) [ ]

preset_listed :
    (o : Option ℤ) (e : Text) → picked_preset o ≡ some e → contains engine_presets e ≡ true
preset_listed none e h = elim (none-ne-some e h) [ ]
preset_listed (some (negsuc n)) e h = elim (none-ne-some e h) [ ]
preset_listed (some (pos n)) e h = listed_if (leb 1 n && leb n 3) engine_presets (n - 1) e h

scale_positive : (o : Option ℤ) (n : ℕ) → positive o ≡ some n → 1 ≤ n
scale_positive none n h = elim (none-ne-some n h) [ ]
scale_positive (some (pos m)) n h = ground (arith, h)
scale_positive (some (negsuc m)) n h = elim (none-ne-some n h) [ ]

-- Whatever the operator types, and where the input ends early too, the menu gives a scale of 1 at least
-- and one of the engine presets.
pub run_menu-valid :
    (first : Text) (others lines : List Text)
    → let choice = run_menu first others lines in
      (1 ≤ choice.scale) × (contains engine_presets choice.engines ≡ true)
unfolding run_menu choose_engines choose_scale
run_menu-valid first others lines = (
  tries_keep (λ n. 1 ≤ n) choose_scale (codes "1") 1 (omega arith)
      (λ raw n. scale_positive (int raw) n) 3 _,
  tries_keep (λ e. contains engine_presets e ≡ true) choose_engines (codes "3")
      (codes "df,duckdb,spark-default,spark-tuned") (unfold list_eq nat_eq in refl)
      (λ raw e. preset_listed (int raw) e) 3 _,
)
