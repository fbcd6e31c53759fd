-- ===== src/Tools/Fixes/Nvedit.antt =====
-- tools/add-nvedit-mram.py: a hunk for cmd/nvedit.c at the end of 0006-bbb-env-on-spi-mram.patch. The runs of tar, patch and
-- diff are arguments: `base` is cmd/nvedit.c under the first six patches, `apply` the same file under a text of 0006
-- and all other patches, each none where a run fails.
pub mod Needles
pub mod Appended
use radsat_linux.Base.{
  Bool, true, false, not, List, [], ◌∷◌, ◌++◌, Option, none, some, Bytes, codes, if◌then◌else◌,
}
use radsat_linux.Tools.Text.{occurs_in, replace_first}
use radsat_linux.Tools.Tree.{replace_all}
use radsat_linux.Tools.Whitelist.Main.{rstrip}
use radsat_linux.Tools.Diff.Patch.{udiff}
use radsat_linux.Tools.Fixes.Nvedit.Needles

abbrev pub path : Bytes
path = codes "cmd/nvedit.c"

-- both edits of cmd/nvedit.c; none where it leaves by `SystemExit`
unfoldable pub edit_nvedit : Bytes → Option Bytes
edit_nvedit t =
    if not (occurs_in Needles.env_list t)
    then none
    else some (
        replace_all Needles.message Needles.message_mram 0
          (replace_first Needles.env_list Needles.env_list_mram t))

-- the assertion at the end
abbrev pub verified : Option Bytes → Bool
verified none = false
verified (some t) = occurs_in (codes "CONFIG_ENV_IS_IN_MRAM") t

module _ (apply : Bytes → Option Bytes) (diff : Bytes → Bytes → Bytes) where
  -- The contents of the patch file when the script ends, and whether it goes through
  abbrev pub with_hunk : Bytes → Option Bytes → Bytes × Bool
  with_hunk p6 none = (p6, false)
  with_hunk p6 (some []) = (p6, false)
  with_hunk p6 (some (c ∷ hunk)) =
      let patched = rstrip p6 ++ (codes "\n" ++ ((c ∷ hunk) ++ codes "\n")) in
      (patched, verified (apply patched))

  abbrev pub with_edit : Bytes → Bytes → Option Bytes → Bytes × Bool
  with_edit p6 t none = (p6, false)
  with_edit p6 t (some t2) = with_hunk p6 (udiff diff t t2 path)

  abbrev pub with_base : Bytes → Option Bytes → Bytes × Bool
  with_base p6 none = (p6, false)
  with_base p6 (some t) = with_edit p6 t (edit_nvedit t)

  unfoldable pub main : Option Bytes → Bytes → Bytes × Bool
  main base p6 = if occurs_in path p6 then (p6, true) else with_base p6 base
