-- ===== src/Tools/Generate/Patches/Board.antt =====
-- The board.c that the patches lead to is the edited tree's.
use radsat_linux.Base.{
  ◌≤◌, ◌≡◌, sym, ap, ◌∙◌, false, ◌++◌, some, Bytes, length, drop, Bool-cases, inl, inr,
}
use radsat_linux.Base.Maybe.{bind_elim}
use radsat_linux.Tools.Text.{occurs_in, replace_first}
use radsat_linux.Tools.Text.Positions.{positions}
use radsat_linux.Tools.Text.Once.{replace_all-once}
use radsat_linux.Tools.Tree.{Tree}
use radsat_linux.Tools.Tree.Needles
use radsat_linux.Tools.Tree.Marks.{unless-absent}
use radsat_linux.Tools.Generate.{must_unless, edit_board, edit_board_fram, edit_tree}
use radsat_linux.Tools.Generate.Agrees.{must_unless_inv, must_replace_inv, Parts, edit_tree-Parts}
use radsat_linux.Tools.Generate.Patches.{board6, board7}

board7-fram :
    (t r : Bytes)
    → length (positions Needles.late_init 0 (Needles.overlay_declaration ++ t)) ≤ 1
    → edit_board_fram t ≡ some r
    → board7 t ≡ r
unfolding board7 edit_board_fram
board7-fram t r once e = elim (Bool-cases (occurs_in Needles.radsat_fram_overlay_env t)) [
  | inl found ↦ rw (found, board7) (cc (rw (found, edit_board_fram) at e))
  | inr absent ↦
      let same =
        replace_all-once b'i' (drop 1 Needles.late_init) Needles.late_init_overlay 0
          (Needles.overlay_declaration ++ t) once in
      rw (absent, board7)
        (same
          ∙ must_replace_inv (Needles.overlay_declaration ++ t) Needles.late_init
              Needles.late_init_overlay r (rw (absent, edit_board_fram) at e))
]

board6-mram :
    (t t2 : Bytes)
    → occurs_in Needles.enable_spi1_pin_mux t ≡ false
    → length (positions Needles.init_i2c0 0 t) ≤ 1
    → must_unless Needles.enable_spi1_pin_mux Needles.init_i2c0 Needles.init_spi1 t ≡ some t2
    → board6 t ≡ t2
unfolding board6
board6-mram t t2 absent once e =
    replace_all-once b'\t' (drop 1 Needles.init_i2c0) Needles.init_spi1 0 t once
    ∙ sym (
        unless-absent Needles.enable_spi1_pin_mux
          (replace_first Needles.init_i2c0 Needles.init_spi1) t absent)
    ∙ must_unless_inv Needles.enable_spi1_pin_mux Needles.init_i2c0 Needles.init_spi1 t t2 e

work_board :
    (env_mram fram_mission : Bytes) (clean work : Tree)
    → Parts env_mram fram_mission clean work
    → edit_board clean.board_c ≡ some work.board_c
work_board env_mram fram_mission clean work
      (makefile, header, mux, board_h, board_c, e1, e3, e4, e5, same) =
    e5 ∙ ap (λ t. some t.board_c) same

board7-board :
    (t r : Bytes)
    → edit_board t ≡ some r
    → occurs_in Needles.enable_spi1_pin_mux t ≡ false
    → length (positions Needles.init_i2c0 0 t) ≤ 1
    → length (positions Needles.late_init 0 (Needles.overlay_declaration ++ board6 t)) ≤ 1
    → board7 (board6 t) ≡ r
unfolding edit_board
board7-board t r e absent once once2 =
    bind_elim (must_unless Needles.enable_spi1_pin_mux Needles.init_i2c0 Needles.init_spi1 t)
      edit_board_fram r e
      λ t2 first second.
        let same = board6-mram t t2 absent once first in
        board7-fram (board6 t) r once2 (ap edit_board_fram same ∙ second)

-- `main` makes the board.c of its patches anew, without the guards of `edit_tree`. Where `edit_tree` goes
-- through, the clean board.c does not name `enable_spi1_pin_mux`, and each of the two texts that are replaced is there
-- at most once, the board.c behind both patches is the one that `edit_tree` made.
pub board7-edited :
    (env_mram fram_mission : Bytes) (clean work : Tree)
    → edit_tree env_mram fram_mission clean ≡ some work
    → occurs_in Needles.enable_spi1_pin_mux clean.board_c ≡ false
    → length (positions Needles.init_i2c0 0 clean.board_c) ≤ 1
    → length (positions Needles.late_init 0 (Needles.overlay_declaration ++ board6 clean.board_c))
      ≤ 1
    → board7 (board6 clean.board_c) ≡ work.board_c
board7-edited env_mram fram_mission clean work e absent once once2 =
    board7-board clean.board_c work.board_c
      (work_board env_mram fram_mission clean work
        (edit_tree-Parts env_mram fram_mission clean work e))
      absent once once2
