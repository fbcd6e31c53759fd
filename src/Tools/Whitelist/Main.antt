-- ===== src/Tools/Whitelist/Main.antt =====
-- `main` of tools/fix-uboot-whitelist-sorted.py. The runs of tar, patch and diff are arguments: `apply` gives the whitelist
-- of the tree under the series that ends with a text of patch 0006, `apply_all` that under the series with patch 0007
-- behind it (none where patch fails), and `diff` the output of `diff -u`.
pub mod Outcome
use radsat_linux.Base.{
  ℕ, Bool, true, false, not, ◌&&◌, List, [], ◌∷◌, ◌++◌, Option, none, some, Bytes, codes, map,
  if◌then◌else◌,
}
use radsat_linux.Tools.Text.{starts_with, occurs_in, splitlines}
use radsat_linux.Tools.Diff.{concat}
use radsat_linux.Tools.Whitelist.{
  new_names, chop_line, is_space, is_blank_line, mem, lt_text, merged, merged_text,
}

abbrev pub marker : Bytes
marker = codes "diff --git a/scripts/config_whitelist.txt b/scripts/config_whitelist.txt\n"

-- `text.split(marker)[0]`
unfoldable pub before_first : Bytes → Bytes → Bytes
before_first sep [] = []
before_first sep (c ∷ text) =
    let rest = before_first sep text in if starts_with sep (c ∷ text) then [] else c ∷ rest

-- `text.rstrip()`
unfoldable pub rstrip : Bytes → Bytes
rstrip [] = []
rstrip (c ∷ s) = let rest = rstrip s in if is_blank_line (c ∷ s) then [] else c ∷ rest

unfoldable pub strip_hunk : Bytes → Bytes
strip_hunk text =
    if occurs_in marker text then rstrip (before_first marker text) ++ codes "\n" else text

-- `wlines == sorted(wlines)`
unfoldable pub is_sorted : List Bytes → Bool
is_sorted [] = true
is_sorted (a ∷ []) = true
is_sorted (a ∷ b ∷ lines) = not (lt_text b a) && is_sorted (b ∷ lines)

unfoldable pub all_in : List Bytes → List Bytes → Bool
all_in [] lines = true
all_in (n ∷ names) lines = mem n lines && all_in names lines

-- the two assertions at the end
unfoldable pub verified : Option Bytes → Bool
verified none = false
verified (some whitelist) =
    let lines = map chop_line (splitlines whitelist) in is_sorted lines && all_in new_names lines

-- the hunk, from the lines of the diff; none where there are less than two
unfoldable pub hunk : List Bytes → Option Bytes
hunk [] = none
hunk (a ∷ []) = none
hunk (a ∷ b ∷ lines) = some (
    marker
    ++ (codes "--- a/scripts/config_whitelist.txt\n"
        ++ (codes "+++ b/scripts/config_whitelist.txt\n" ++ concat lines)))

module _ (apply apply_all : Bytes → Option Bytes) (diff : Bytes → Bytes → Bytes) where
  -- the contents of the patch file when the script ends, and whether it goes through
  unfoldable pub finish : Bytes → Option Bytes → Bytes × Bool
  finish stripped none = (stripped, false)
  finish stripped (some part) = (stripped ++ part, verified (apply_all (stripped ++ part)))

  unfoldable pub update : Bytes → Option Bytes → Bytes × Bool
  update stripped none = (stripped, false)
  update stripped (some whitelist) =
      let out = diff whitelist (merged_text (merged whitelist)) in
      finish stripped (if is_blank_line out then none else hunk (splitlines out))

  unfoldable pub main : Bytes → Bytes × Bool
  main text = update (strip_hunk text) (apply (strip_hunk text))
