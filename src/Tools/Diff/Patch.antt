-- ===== src/Tools/Diff/Patch.antt =====
-- The parts of a patch that change a file: `udiff` of tools/rewrite-uboot-0006-0007.py and `diff_file` of
-- tools/gen-mram-fram-uboot-patches.py. `diff` gives the output of `diff -u` for two texts.
use radsat_linux.Base.{List, [], ◌∷◌, ◌++◌, Option, none, some, Bytes, codes, if◌then◌else◌}
use radsat_linux.Tools.Text.{splitlines}
use radsat_linux.Tools.Whitelist.{is_blank_line}
use radsat_linux.Tools.Diff.{concat}

-- `lines[0] = f"--- a/{rel}\n"` and `lines[1] = f"+++ b/{rel}\n"`, where there are two lines
unfoldable pub retitled : Bytes → List Bytes → List Bytes
retitled rel [] = []
retitled rel (a ∷ []) = a ∷ []
retitled rel (a ∷ b ∷ lines) =
    (codes "--- a/" ++ (rel ++ codes "\n")) ∷ (codes "+++ b/" ++ (rel ++ codes "\n")) ∷ lines

-- `diff --git a/{rel} b/{rel}`
abbrev pub git_line : Bytes → Bytes
git_line rel = codes "diff --git a/" ++ (rel ++ (codes " b/" ++ (rel ++ codes "\n")))

-- none is the IndexError for an output of one line
unfoldable pub git_diff : Bytes → List Bytes → Option Bytes
git_diff rel [] = some []
git_diff rel (a ∷ []) = none
git_diff rel (a ∷ b ∷ lines) = some (git_line rel ++ concat (retitled rel (a ∷ b ∷ lines)))

module _ (diff : Bytes → Bytes → Bytes) where
  unfoldable pub udiff : Bytes → Bytes → Bytes → Option Bytes
  udiff a b rel = git_diff rel (splitlines (diff a b))

  unfoldable pub diff_file : Bytes → Bytes → Bytes → Bytes
  diff_file a b rel =
      if is_blank_line (diff a b) then [] else concat (retitled rel (splitlines (diff a b)))
