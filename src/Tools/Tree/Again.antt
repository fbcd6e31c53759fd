-- ===== src/Tools/Tree/Again.antt =====
-- A second run of the tree's edits changes nothing.
use radsat_linux.Base.{
  ◌≡◌, refl, ap, true, [], ◌++◌, Option, some, Bytes, Bool-cases, Option-cases, subst, inl, inr,
}
use radsat_linux.Tools.Text.{starts_with, occurs_in, replace_first}
use radsat_linux.Tools.Tree.{
  replace_all, Stage, mram, fram, Tree, edit_makefile, edit_header, edit_environment, edit_mux,
  edit_board_h, edit_board_mram, edit_board_fram, edit_tree, mram_tree, fram_tree,
}
use radsat_linux.Tools.Tree.Needles
use radsat_linux.Tools.Tree.Marks.{
  occurs_in-left, replace_first-Marks, replace_all-Marks, sub_between-marks, compose-Marks,
  unless-again,
}

some_inj : {A : Type 0} {a b : A} → ◌≡◌ {A = Option A} (some a) (some b) → a ≡ b
some_inj h = cc

object_lines_marked : occurs_in Needles.env_mram_o Needles.object_lines ≡ true
unfolding occurs_in starts_with
object_lines_marked = refl

mram_block_marked : occurs_in Needles.config_env_is_in_mram Needles.mram_block ≡ true
unfolding occurs_in starts_with
mram_block_marked = refl

not_in_mram_marked : occurs_in Needles.config_env_is_in_mram Needles.not_in_mram ≡ true
unfolding occurs_in starts_with
not_in_mram_marked = refl

spi1_pins_marked : occurs_in Needles.spi1_pin_mux Needles.spi1_pins ≡ true
unfolding occurs_in starts_with
spi1_pins_marked = refl

enable_spi1_marked : occurs_in Needles.spi1_pin_mux Needles.enable_spi1 ≡ true
unfolding occurs_in starts_with
enable_spi1_marked = refl

declare_spi1_marked : occurs_in Needles.enable_spi1_pin_mux Needles.declare_spi1 ≡ true
unfolding occurs_in starts_with
declare_spi1_marked = refl

init_spi1_marked : occurs_in Needles.enable_spi1_pin_mux_call Needles.init_spi1 ≡ true
unfolding occurs_in starts_with
init_spi1_marked = refl

late_init_marked : occurs_in Needles.radsat_fram_overlay_env Needles.late_init_overlay ≡ true
unfolding occurs_in starts_with
late_init_marked = refl

declaration_marked : occurs_in Needles.radsat_fram_overlay_env Needles.overlay_declaration ≡ true
unfolding occurs_in starts_with
declaration_marked = refl

pub edit_makefile-again : (t : Bytes) → edit_makefile (edit_makefile t) ≡ edit_makefile t
unfolding edit_makefile
edit_makefile-again =
    unless-again Needles.env_mram_o (replace_all Needles.object_line Needles.object_lines 0) (
      replace_all-Marks Needles.env_mram_o Needles.object_line Needles.object_lines
        object_lines_marked)

edit_environment-again : (t : Bytes) → edit_environment (edit_environment t) ≡ edit_environment t
unfolding edit_environment
edit_environment-again =
    unless-again Needles.config_env_is_in_mram
      (replace_all Needles.not_in_spi_flash Needles.not_in_mram 0)
      (replace_all-Marks Needles.config_env_is_in_mram Needles.not_in_spi_flash Needles.not_in_mram
        not_in_mram_marked)

edit_mux-again : (t : Bytes) → edit_mux (edit_mux t) ≡ edit_mux t
unfolding edit_mux
edit_mux-again = unless-again Needles.spi1_pin_mux _ (
    compose-Marks Needles.spi1_pin_mux (replace_first Needles.spi0_pins Needles.spi1_pins)
      (replace_first Needles.enable_i2c0 Needles.enable_spi1)
      (replace_first-Marks Needles.spi1_pin_mux Needles.spi0_pins Needles.spi1_pins
        spi1_pins_marked)
      (replace_first-Marks Needles.spi1_pin_mux Needles.enable_i2c0 Needles.enable_spi1
        enable_spi1_marked))

edit_board_h-again : (t : Bytes) → edit_board_h (edit_board_h t) ≡ edit_board_h t
unfolding edit_board_h
edit_board_h-again =
    unless-again Needles.enable_spi1_pin_mux
      (replace_first Needles.declare_i2c0 Needles.declare_spi1)
      (replace_first-Marks Needles.enable_spi1_pin_mux Needles.declare_i2c0 Needles.declare_spi1
        declare_spi1_marked)

edit_board_mram-again : (t : Bytes) → edit_board_mram (edit_board_mram t) ≡ edit_board_mram t
unfolding edit_board_mram
edit_board_mram-again =
    unless-again Needles.enable_spi1_pin_mux_call
      (replace_first Needles.init_i2c0 Needles.init_spi1)
      (replace_first-Marks Needles.enable_spi1_pin_mux_call Needles.init_i2c0 Needles.init_spi1
        init_spi1_marked)

edit_board_fram-again : (t : Bytes) → edit_board_fram (edit_board_fram t) ≡ edit_board_fram t
unfolding edit_board_fram
edit_board_fram-again = unless-again Needles.radsat_fram_overlay_env _ (λ t.
    elim (replace_first-Marks Needles.radsat_fram_overlay_env Needles.late_init
      Needles.late_init_overlay late_init_marked (Needles.overlay_declaration ++ t)) [
        | inl marked ↦ inl marked
        | inr same ↦ inl (
            rw same (
              occurs_in-left Needles.radsat_fram_overlay_env Needles.overlay_declaration t
                declaration_marked))
      ])

edit_header-again : (t r : Bytes) → edit_header t ≡ some r → edit_header r ≡ some r
unfolding edit_header
edit_header-again t r e = elim (Bool-cases (occurs_in Needles.config_env_is_in_mram t)) [
  | inl found ↦
      let same : t ≡ r = some_inj (rw (found, edit_header) at e) in
      subst (λ s. edit_header s ≡ some s) same (rw (found, edit_header) refl)
  | inr absent ↦
      let marked =
        sub_between-marks Needles.config_env_is_in_mram [] Needles.mram_block mram_block_marked
          Needles.spl_block_start Needles.spl_block_end t r (rw (absent, edit_header) at e) in
      rw (marked, edit_header) refl
]

mram_tree-again :
    (env_mram : Bytes) (tree : Tree) (header : Bytes)
    → mram_tree env_mram (mram_tree env_mram tree header) header ≡ mram_tree env_mram tree header
mram_tree-again env_mram tree header =
    rw
      (
        edit_makefile-again tree.makefile,
        edit_environment-again tree.environment_h,
        edit_mux-again tree.mux,
        edit_board_h-again tree.board_h,
        edit_board_mram-again tree.board_c,
      )
      refl

fram_tree-again :
    (fram_mission : Bytes) (tree : Tree)
    → fram_tree fram_mission (fram_tree fram_mission tree) ≡ fram_tree fram_mission tree
fram_tree-again fram_mission tree =
    rw (edit_makefile-again tree.makefile, edit_board_fram-again tree.board_c) refl

mram-again :
    (env_mram fram_mission : Bytes) (tree : Tree) (header : Bytes)
    → edit_header tree.header ≡ some header
    → edit_tree env_mram fram_mission mram (mram_tree env_mram tree header)
      ≡ some (mram_tree env_mram tree header)
unfolding edit_tree
mram-again env_mram fram_mission tree header h =
    rw (edit_header-again tree.header header h, edit_tree)
      (ap (λ t. some t) (mram_tree-again env_mram tree header))

-- If `edit_tree` goes through at a stage, a second run at that stage goes through as well and leaves
-- every file as the first run left it, whatever the tree held.
pub edit_tree-again :
    (env_mram fram_mission : Bytes) (stage : Stage) (tree edited : Tree)
    → edit_tree env_mram fram_mission stage tree ≡ some edited
    → edit_tree env_mram fram_mission stage edited ≡ some edited
unfolding edit_tree
edit_tree-again env_mram fram_mission mram tree edited e =
    elim (Option-cases (edit_header tree.header)) [
      | inl stops ↦ absurd (cc (rw (stops, edit_tree) at e))
      | inr (header, h) ↦
          let same : mram_tree env_mram tree header ≡ edited = some_inj (rw (h, edit_tree) at e) in
          subst (λ t. edit_tree env_mram fram_mission mram t ≡ some t) same
            (mram-again env_mram fram_mission tree header h)
    ]
edit_tree-again env_mram fram_mission fram tree edited e =
    let same : fram_tree fram_mission tree ≡ edited = some_inj e in
    subst (λ t. edit_tree env_mram fram_mission fram t ≡ some t) same
      (ap (λ t. some t) (fram_tree-again fram_mission tree))
