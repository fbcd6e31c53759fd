-- ===== src/Tools/Generate/Patches.antt =====
-- `main` of tools/gen-mram-fram-uboot-patches.py from the tree that is there: the two patches that it writes. The `parts`
-- and `patch6` that it puts together first are not used for them.
pub mod Board
use radsat_linux.Base.{List, [], ◌∷◌, ◌++◌, Option, none, some, Bytes, codes, if◌then◌else◌, map}
use radsat_linux.Tools.Text.{occurs_in, splitlines}
use radsat_linux.Tools.Diff.{concat, end_line, newfile_lines}
use radsat_linux.Tools.Diff.Patch.{git_line, diff_file}
use radsat_linux.Tools.Tree.{Tree, replace_all}
use radsat_linux.Tools.Tree.Needles
use radsat_linux.Tools.Tree.Patches.{File, board_c_path}
use radsat_linux.Tools.Generate.{edit_tree}
use radsat_linux.Tools.Generate.Heads

-- the part that makes a new file; every line gets its end
unfoldable pub new_file : Bytes → Bytes → Bytes
new_file rel content = concat (newfile_lines rel (map end_line (splitlines content)))

unfoldable pub plain_files : List File
plain_files =
    (codes "common/Makefile", λ t. t.makefile)
    ∷ (codes "include/configs/beaglebone-black.h", λ t. t.header)
    ∷ (codes "include/environment.h", λ t. t.environment_h)
    ∷ (codes "board/ti/am335x/mux.c", λ t. t.mux)
    ∷ (codes "board/ti/am335x/board.h", λ t. t.board_h)
    ∷ []

-- board.c for 0006: only pinmux enables, not fram overlay
unfoldable pub board6 : Bytes → Bytes
board6 bclean = replace_all Needles.init_i2c0 Needles.init_spi1 0 bclean

-- board.c for 0007
unfoldable pub board7 : Bytes → Bytes
board7 b6 =
    if occurs_in Needles.radsat_fram_overlay_env b6
    then b6
    else replace_all Needles.late_init Needles.late_init_overlay 0
        (Needles.overlay_declaration ++ b6)

module _ (diff : Bytes → Bytes → Bytes) where
  -- `d = diff_file(...)`, `if d: ...append(...)`
  abbrev pub headed : Bytes → Bytes → Bytes
  headed rel [] = []
  headed rel (c ∷ d) = git_line rel ++ c ∷ d

  unfoldable pub file_part : Bytes → Bytes → Bytes → Bytes
  file_part rel a b = headed rel (diff_file diff a b rel)

  unfoldable pub file_parts : List File → Tree → Tree → Bytes
  file_parts [] a b = []
  file_parts ((rel, text) ∷ files) a b = file_part rel (text a) (text b) ++ file_parts files a b

  unfoldable pub mram_patch : Bytes → Tree → Tree → Bytes
  mram_patch env_mram clean work =
      Heads.mram_head
      ++ (new_file (codes "common/env_mram.c") env_mram
          ++ (file_parts plain_files clean work
              ++ file_part board_c_path clean.board_c (board6 clean.board_c)))

  unfoldable pub fram_patch : Bytes → Tree → Bytes
  fram_patch fram_mission clean =
      let b6 = board6 clean.board_c in
      Heads.fram_head
      ++ (new_file (codes "common/fram_mission.c") fram_mission
          ++ file_part board_c_path b6 (board7 b6))

  -- none is `SystemExit`
  unfoldable pub main : Bytes → Bytes → Tree → Option (Bytes × Bytes)
  main env_mram fram_mission clean = elim (edit_tree env_mram fram_mission clean) [
    | none ↦ none
    | some work ↦ some (mram_patch env_mram clean work, fram_patch fram_mission clean)
  ]
