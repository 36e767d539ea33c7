-- ===== src/Runner/Merge/Laws.antt =====
-- Lemmas on the merge of the fragments in bench_runner.py.
use delta_forge_benchmarks.Common.{
  ◌≡◌, refl, sym, ap, ◌∙◌, Bool, true, false, ◌||◌, Option, none, some, List, [], ◌∷◌, String,
  if◌then◌else◌, ◌==◌, string_eq, contains, Bool-cases, inl, inr, ==-sound,
}
use delta_forge_benchmarks.Common.Dict.{lookup, lookup-insert}
use delta_forge_benchmarks.Runner.Session.{Fragment}
use delta_forge_benchmarks.Runner.Merge.{Manifest, update, merge_fragment, merge}

abbrev pub version_told : Option Fragment → Option String
version_told none = none
version_told (some f) = f.engine_version

abbrev pub told_or : Option String → Option String → Option String
told_or none o = o
told_or (some v) o = some v

same_if : (b : Bool) (o : Option String) → o ≡ (if b then o else o)
same_if true o = refl
same_if false o = refl

lookup-merge_fragment :
    (e engine : String) (o : Option Fragment) (m : Manifest)
    → lookup e (merge_fragment engine o m).engine_versions ≡ (
        if e == engine
        then told_or (version_told o) (lookup e m.engine_versions)
        else lookup e m.engine_versions)
lookup-merge_fragment e engine none m = same_if (e == engine) (lookup e m.engine_versions)
lookup-merge_fragment e engine (some f) m = by_version f.engine_version
  where
    by_version :
        (v : Option String)
        → lookup e (update engine v m.engine_versions) ≡ (
            if e == engine
            then told_or v (lookup e m.engine_versions)
            else lookup e m.engine_versions)
    by_version none = same_if (e == engine) (lookup e m.engine_versions)
    by_version (some v) = lookup-insert e engine v m.engine_versions

-- The version that the manifest has of an engine after the merge, by what it had before.
lookup-merge_from :
    (fragment_of : String → Option Fragment) (e : String) (engines : List String) (m : Manifest)
    → lookup e (merge fragment_of engines m).engine_versions ≡ (
        if contains engines e
        then told_or (version_told (fragment_of e)) (lookup e m.engine_versions)
        else lookup e m.engine_versions)
unfolding merge
lookup-merge_from fragment_of e [] m = refl
lookup-merge_from fragment_of e (engine ∷ engines) m =
    let o = fragment_of engine in
    let old = lookup e m.engine_versions in
    lookup-merge_from fragment_of e engines (merge_fragment engine o m)
    ∙ elim (Bool-cases (e == engine)) [
      | inl same ↦
          ap (λ l. if contains engines e then told_or (version_told (fragment_of e)) l else l)
            (lookup-merge_fragment e engine o m
              ∙ ap (λ b. if b then told_or (version_told o) old else old) same
              ∙ ap (λ k. told_or (version_told (fragment_of k)) old) (sym (==-sound e engine same)))
          ∙ twice (contains engines e) (version_told (fragment_of e)) old
          ∙ sym (
              ap
                (λ b.
                  if b || contains engines e
                  then told_or (version_told (fragment_of e)) old
                  else old)
                same)
      | inr other ↦
          ap (λ l. if contains engines e then told_or (version_told (fragment_of e)) l else l)
            (lookup-merge_fragment e engine o m
              ∙ ap (λ b. if b then told_or (version_told o) old else old) other)
          ∙ sym (
              ap
                (λ b.
                  if b || contains engines e
                  then told_or (version_told (fragment_of e)) old
                  else old)
                other)
    ]
  where
    twice :
        (b : Bool) (v o : Option String)
        → (if b then told_or v (told_or v o) else told_or v o) ≡ told_or v o
    twice true none o = refl
    twice true (some v) o = refl
    twice false v o = refl

-- After the merge the manifest has the version of an engine exactly if the engine was asked for and its
-- child left a fragment that tells it, whatever became of the other children.
pub lookup-merge :
    (fragment_of : String → Option Fragment) (e : String) (engines : List String)
    → lookup e
        (merge fragment_of engines
          (record { engine_versions = []; cold_starts = [] })).engine_versions
      ≡ (if contains engines e then version_told (fragment_of e) else none)
lookup-merge fragment_of e engines =
    lookup-merge_from fragment_of e engines (record { engine_versions = []; cold_starts = [] })
    ∙ ap (λ l. if contains engines e then l else none) (nothing (version_told (fragment_of e)))
  where
    nothing : (o : Option String) → told_or o none ≡ o
    nothing none = refl
    nothing (some v) = refl
