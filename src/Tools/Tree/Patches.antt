-- ===== src/Tools/Tree/Patches.antt =====
-- `main` of tools/rewrite-uboot-0006-0007.py. The runs of tar, patch and diff are arguments: `base` is the tree under the
-- first five patches, `apply` a run of patch, and none where one of them fails.
pub mod Parts
pub mod Cover
use radsat_linux.Base.{
  Bool, true, false, ◌&&◌, List, [], ◌∷◌, ◌++◌, Option, none, some, Bytes, codes,
}
use radsat_linux.Base.Maybe.{◌>>=◌}
use radsat_linux.Tools.Diff.{newfile_diff}
use radsat_linux.Tools.Diff.Patch.{udiff}
use radsat_linux.Tools.Tree.{Tree, mram, fram, edit_tree}
use radsat_linux.Tools.Tree.Heads

-- what a run leaves: nothing, 0006 alone, or both patches and whether they were seen to apply
pub data Outcome : Type 0 where
  stopped : Outcome
  wrote_mram : Bytes → Outcome
  wrote_both : Bytes → Bytes → Bool → Outcome

-- a file that the patches change: its path and its text
abbrev pub File : Type 0
File = Bytes × (Tree → Bytes)

abbrev pub board_c_path : Bytes
board_c_path = codes "board/ti/am335x/board.c"

unfoldable pub changed_files : List File
changed_files =
    (codes "common/Makefile", λ t. t.makefile)
    ∷ (codes "include/configs/beaglebone-black.h", λ t. t.header)
    ∷ (codes "include/environment.h", λ t. t.environment_h)
    ∷ (codes "board/ti/am335x/mux.c", λ t. t.mux)
    ∷ (codes "board/ti/am335x/board.h", λ t. t.board_h)
    ∷ (board_c_path, λ t. t.board_c)
    ∷ []

abbrev pub exists : Option Bytes → Bool
exists none = false
exists (some c) = true

module _ (diff : Bytes → Bytes → Bytes) where
  -- the loop over `rel`; a diff that is empty adds nothing
  unfoldable pub udiffs : List File → Tree → Tree → Option Bytes
  udiffs [] a b = some []
  udiffs ((rel, text) ∷ files) a b = do
    d ← udiff diff (text a) (text b) rel
    rest ← udiffs files a b
    some (d ++ rest)

  unfoldable pub mram_patch : Tree → Tree → Option Bytes
  mram_patch base edited = do
    c ← edited.env_mram_c
    parts ← udiffs changed_files base edited
    some (Heads.mram_head ++ (newfile_diff (codes "common/env_mram.c") c ++ parts))

  unfoldable pub fram_patch : Tree → Tree → Option Bytes
  fram_patch before edited = do
    c ← edited.fram_mission_c
    d ← udiff diff before.board_c edited.board_c board_c_path
    some (Heads.fram_head ++ (newfile_diff (codes "common/fram_mission.c") c ++ d))

  module _ (apply : Bytes → Tree → Option Tree) where
    -- `apply_patch` twice, and both new files are there
    unfoldable pub verify : Tree → Bytes → Bytes → Option Bool
    verify base p6 p7 = do
      t ← apply p6 base
      t2 ← apply p7 t
      some (exists t2.env_mram_c && exists t2.fram_mission_c)

    abbrev pub passed : Option Bool → Bool
    passed none = false
    passed (some b) = b

    abbrev pub second : Bytes → Tree → Option Bytes → Outcome
    second p6 base none = wrote_mram p6
    second p6 base (some p7) = wrote_both p6 p7 (passed (verify base p6 p7))

    abbrev pub first : Bytes → Bytes → Tree → Tree → Option Bytes → Outcome
    first env_mram fram_mission base edited none = stopped
    first env_mram fram_mission base edited (some p6) =
        second p6 base (edit_tree env_mram fram_mission fram edited >>= fram_patch edited)

    abbrev pub staged : Bytes → Bytes → Tree → Option Tree → Outcome
    staged env_mram fram_mission base none = stopped
    staged env_mram fram_mission base (some edited) =
        first env_mram fram_mission base edited (mram_patch base edited)

    unfoldable pub main : Bytes → Bytes → Option Tree → Outcome
    main env_mram fram_mission none = stopped
    main env_mram fram_mission (some base) =
        staged env_mram fram_mission base (edit_tree env_mram fram_mission mram base)
