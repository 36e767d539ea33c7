-- ===== src/Host/Mount/Longest.antt =====
-- The mount that `_mount_for_path` of engines/host_facts.py chooses.
use delta_forge_benchmarks.Common.{
  ℕ, suc, ◌≤◌, ◌<◌, ◌≡◌, refl, sym, subst, ap, ◌∙◌, ◌⊎◌, inl, inr, Bool, true, false, Option, none,
  some, List, [], ◌∷◌, ◌++◌, All, ltb, ltb→lt, Bool-cases, if◌then◌else◌, arith,
}
use delta_forge_benchmarks.Common.Lines.{splitlines}
use delta_forge_benchmarks.Common.Text.{Text}
use delta_forge_benchmarks.Host.Mount.{
  Names, Mount, Best, path_length, is_below, consider_resolved, consider, best_of, mounts_of,
  nothing_yet, mount_for_path,
}

module _ (resolve : Text → Option Names) (target : Names) where
  abbrev resolved_length : Option Names → ℕ
  resolved_length none = 0
  resolved_length (some mp) = if is_below target mp then suc (path_length mp) else 0

  -- One more than the length of the mount point if the path lies below it, and 0 if it does not or cannot
  -- be resolved.
  unfoldable pub covering : Mount → ℕ
  covering m = resolved_length (resolve m.mountpoint)

  -- The first of the mounts that cover the path best.
  abbrev pub IsLongest : List Mount → Option Mount → Type 0
  IsLongest ms none = All (λ m. covering m ≡ 0) ms
  IsLongest ms (some m) =
      (before : List Mount) × (after : List Mount) × (ms ≡ before ++ m ∷ after)
      × (0 < covering m)
      × All (λ n. covering n < covering m) before
      × All (λ n. covering n ≤ covering m) after

  consider_lem :
      (m : Mount) (b : Best)
      → consider resolve target m b ≡ (
          if ltb b.best_len (covering m)
          then record { best_match = some m; best_len = covering m }
          else b)
  unfolding consider covering
  consider_lem m b = by_path (resolve m.mountpoint)
    where
      by_test :
          (t : Bool) (mp : Names)
          → (if t
              then (if ltb b.best_len (suc (path_length mp))
                  then record { best_match = some m; best_len = suc (path_length mp) }
                  else b)
              else b)
            ≡ (if ltb b.best_len (if t then suc (path_length mp) else 0)
                then record {
                  best_match = some m;
                  best_len = if t then suc (path_length mp) else 0;
                }
                else b)
      by_test true mp = refl
      by_test false mp = ground arith

      by_path :
          (o : Option Names)
          → (elim o [ none ↦ b | some mp ↦ consider_resolved resolve target m mp b ]) ≡ (
              if ltb b.best_len (resolved_length o)
              then record { best_match = some m; best_len = resolved_length o }
              else b)
      by_path none = ground arith
      by_path (some mp) = by_test (is_below target mp) mp

  -- What the loop makes of a best match: it keeps it, or it finds a better one.
  Found : List Mount → Best → Best → Type 0
  Found ms b r =
      ((r ≡ b) × All (λ n. covering n ≤ b.best_len) ms)
      ⊎ ((before : List Mount) × (m : Mount) × (after : List Mount) × (ms ≡ before ++ m ∷ after)
          × (r.best_match ≡ some m)
          × (b.best_len < covering m)
          × All (λ n. covering n < covering m) before
          × All (λ n. covering n ≤ covering m) after)

  best_of-Found : (ms : List Mount) (b : Best) → Found ms b (best_of resolve target ms b)
  unfolding best_of Found
  best_of-Found [] b = inl (refl, tt)
  best_of-Found (m ∷ ms) b = elim (Bool-cases (ltb b.best_len (covering m))) [
    | inl better ↦
        let b' : Best = record { best_match = some m; best_len = covering m } in
        let e : consider resolve target m b ≡ b' = consider_lem m b ∙ rw better refl in
        improved (ltb→lt b.best_len (covering m) better)
          (subst (λ c. Found ms b' (best_of resolve target ms c)) (sym e) (best_of-Found ms b'))
    | inr worse ↦
        let e : consider resolve target m b ≡ b = consider_lem m b ∙ rw worse refl in
        kept worse
          (subst (λ c. Found ms b (best_of resolve target ms c)) (sym e) (best_of-Found ms b))
  ]
    where
      improved :
          {r : Best}
          → b.best_len < covering m
          → Found ms (record { best_match = some m; best_len = covering m }) r
          → Found (m ∷ ms) b r
      improved lt (inl (e, all)) = inr ([], m, ms, refl, ap (λ r. r.best_match) e, lt, tt, all)
      improved lt (inr (before, n, after, e, found, more, less, all)) =
          inr (m ∷ before, n, after, ap (λ l. m ∷ l) e, found, omega arith, (more, less), all)

      kept : {r : Best} → ltb b.best_len (covering m) ≡ false → Found ms b r → Found (m ∷ ms) b r
      kept worse (inl (e, all)) = inl (e, (ground arith, all))
      kept worse (inr (before, n, after, e, found, more, less, all)) =
          inr (m ∷ before, n, after, ap (λ l. m ∷ l) e, found, more, (ground arith, less), all)

  none_covers : (ms : List Mount) → All (λ n. covering n ≤ 0) ms → All (λ n. covering n ≡ 0) ms
  none_covers [] h = tt
  none_covers (m ∷ ms) (h, hs) = (omega arith, none_covers ms hs)

  -- The mount that is reported for a path is the first of those whose mount point is the longest one that
  -- the path lies below; with no such mount none is reported.
  pub mount_for_path-IsLongest :
      (text : Text)
      → IsLongest (mounts_of (splitlines text)) (mount_for_path resolve target (some text))
  unfolding mount_for_path Found
  mount_for_path-IsLongest text =
      let ms = mounts_of (splitlines text) in
      by_found ms (best_of resolve target ms nothing_yet) (best_of-Found ms nothing_yet)
    where
      by_found : (ms : List Mount) (r : Best) → Found ms nothing_yet r → IsLongest ms r.best_match
      by_found ms r (inl (e, all)) =
          subst (λ (o : Option Mount). IsLongest ms o) (sym (ap (λ r. r.best_match) e))
            (none_covers ms all)
      by_found ms r (inr (before, m, after, e, found, more, less, all)) =
          subst (λ (o : Option Mount). IsLongest ms o) (sym found)
            (before, after, e, more, less, all)
