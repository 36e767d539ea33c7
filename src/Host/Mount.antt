-- ===== src/Host/Mount.antt =====
-- `_mount_for_path` of engines/host_facts.py. A resolved path is the list of its names;
-- how a path is resolved is given, none where that raises.
pub mod Longest
use delta_forge_benchmarks.Common.{
  ℕ, suc, ◌+◌, Bool, true, false, Option, none, some, List, [], ◌∷◌, ◌++◌, length, ltb,
  if◌then◌else◌, ◌==◌, nat_eq, list_eq,
}
use delta_forge_benchmarks.Common.Lines.{splitlines}
use delta_forge_benchmarks.Common.Words.{split_commas}
use delta_forge_benchmarks.Common.Text.{Text, codes}
use delta_forge_benchmarks.Common.Words.{split_words}
use delta_forge_benchmarks.Purge.{strip}

abbrev pub Names : Type 0
Names = List Text

-- `len(str(path))` of a resolved path
unfoldable pub path_length : Names → ℕ
path_length [] = 1
path_length (n ∷ []) = suc (length n)
path_length (n ∷ m ∷ ns) = suc (length n) + path_length (m ∷ ns)

-- `target.relative_to(mp)` does not raise.
unfoldable pub is_below : Names → Names → Bool
is_below target [] = true
is_below [] (n ∷ ns) = false
is_below (t ∷ ts) (n ∷ ns) = let rest = is_below ts ns in if t == n then rest else false

pub record Mount : Type 0 where
  pub device : Text
  pub mountpoint : Text
  pub fstype : Text
  pub opts : Text

-- A line with four parts at least.
abbrev mount_of : List Text → Option Mount
mount_of (d ∷ m ∷ f ∷ o ∷ rest) = some (record { device = d; mountpoint = m; fstype = f; opts = o })
mount_of _ = none

pub record Best : Type 0 where
  pub best_match : Option Mount
  pub best_len : ℕ

unfoldable pub mounts_of : List Text → List Mount
unfolding split_words
mounts_of [] = []
mounts_of (l ∷ ls) = elim (mount_of (split_words l)) [
  | none ↦ mounts_of ls
  | some m ↦ m ∷ mounts_of ls
]

abbrev pub nothing_yet : Best
nothing_yet = record { best_match = none; best_len = 0 }

module _ (resolve : Text → Option Names) (target : Names) where
  -- The length of the best match is kept with one added: 0 stands for the -1 of the code.
  abbrev pub consider_resolved : Mount → Names → Best → Best
  consider_resolved m mp best =
      if is_below target mp
      then (if ltb best.best_len (suc (path_length mp))
          then record { best_match = some m; best_len = suc (path_length mp) }
          else best)
      else best

  unfoldable pub consider : Mount → Best → Best
  unfolding is_below path_length
  consider m best = elim (resolve m.mountpoint) [
    | none ↦ best
    | some mp ↦ consider_resolved m mp best
  ]

  unfoldable pub best_of : List Mount → Best → Best
  unfolding consider
  best_of [] best = best
  best_of (m ∷ ms) best = best_of ms (consider m best)

  -- The mount that the function reports, of the text of /proc/mounts; none is the empty dict.
  unfoldable pub mount_for_path : Option Text → Option Mount
  unfolding best_of mounts_of splitlines
  mount_for_path none = none
  mount_for_path (some text) = (best_of (mounts_of (splitlines text)) nothing_yet).best_match

-- The report on a mount, with the lines of `lsblk` if it gives any.
pub record MountFacts : Type 0 where
  pub path : Text
  pub device : Text
  pub mountpoint : Text
  pub fstype : Text
  pub options : List Text
  pub lsblk : Option (List Text)

abbrev lines_if : Option Text → Option (List Text)
lines_if none = none
lines_if (some []) = none
lines_if (some (c ∷ s)) = some (splitlines (strip (c ∷ s)))

unfoldable pub mount_facts : Text → (Text → Option Text) → Mount → MountFacts
unfolding split_commas strip splitlines
mount_facts path run_lsblk m = record {
  path = path;
  device = m.device;
  mountpoint = m.mountpoint;
  fstype = m.fstype;
  options = split_commas m.opts;
  lsblk = lines_if (run_lsblk m.device);
}
