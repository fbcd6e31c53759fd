-- ===== src/Tools/Tree.antt =====
-- `edit_tree` of tools/rewrite-uboot-0006-0007.py: the edits of a U-Boot source tree that the patches 0006 and 0007
-- are made from. A tree is the files that it edits; a run that leaves by `SystemExit` gives none.
pub mod Needles
pub mod Marks
pub mod Again
pub mod Heads
pub mod Patches
use radsat_linux.Base.{
  ℕ, zero, suc, ◌-◌, Bool, true, false, List, [], ◌∷◌, ◌++◌, Option, none, some, Bytes,
  if◌then◌else◌, length, drop,
}
use radsat_linux.Tools.Text.{starts_with, occurs_in, replace_first}
use radsat_linux.Tools.Tree.Needles

-- `t.replace(old, new)`, `old` being not empty; `skip` characters of an occurrence are still to be passed
unfoldable pub replace_all : Bytes → Bytes → ℕ → Bytes → Bytes
replace_all old new skip [] = []
replace_all old new (suc skip) (c ∷ text) = replace_all old new skip text
replace_all old new zero (c ∷ text) = elim (starts_with old (c ∷ text)) [
  | true ↦ new ++ replace_all old new (length old - 1) text
  | false ↦ c ∷ replace_all old new zero text
]

-- the text behind the first `end`
unfoldable pub after_first : Bytes → Bytes → Option Bytes
after_first end [] = if starts_with end [] then some [] else none
after_first end (c ∷ text) =
    let rest = after_first end text in
    if starts_with end (c ∷ text) then some (drop (length end) (c ∷ text)) else rest

-- a character that stays, in front of the outcome for the rest
abbrev pub behind : ℕ → Option Bytes → Option Bytes
behind c none = none
behind c (some t) = some (c ∷ t)

-- `re.subn(start[\s\S]*?end, new, t, count=1)`, `start` being not empty; none where nothing is replaced
unfoldable pub sub_between : Bytes → Bytes → Bytes → Bytes → Option Bytes
sub_between start end new [] = none
sub_between start end new (c ∷ text) =
    let later = behind c (sub_between start end new text) in
    if starts_with start (c ∷ text)
    then elim (after_first end (drop (length start) (c ∷ text))) [
      | none ↦ later
      | some rest ↦ some (new ++ rest)
    ]
    else later

-- `if mark not in t: t = edit(t)`
unfoldable pub unless : Bytes → (Bytes → Bytes) → Bytes → Bytes
unless mark edit t = if occurs_in mark t then t else edit t

pub data Stage : Type 0 where
  mram : Stage
  fram : Stage

pub record Tree : Type 0 where
  pub makefile : Bytes
  pub env_mram_c : Option Bytes
  pub fram_mission_c : Option Bytes
  pub header : Bytes
  pub environment_h : Bytes
  pub mux : Bytes
  pub board_h : Bytes
  pub board_c : Bytes

unfoldable pub edit_makefile : Bytes → Bytes
edit_makefile = unless Needles.env_mram_o (replace_all Needles.object_line Needles.object_lines 0)

unfoldable pub edit_header : Bytes → Option Bytes
edit_header t =
    if occurs_in Needles.config_env_is_in_mram t
    then some t
    else sub_between Needles.spl_block_start Needles.spl_block_end Needles.mram_block t

unfoldable pub edit_environment : Bytes → Bytes
edit_environment =
    unless Needles.config_env_is_in_mram
      (replace_all Needles.not_in_spi_flash Needles.not_in_mram 0)

unfoldable pub edit_mux : Bytes → Bytes
edit_mux = unless Needles.spi1_pin_mux (λ t.
    replace_first Needles.enable_i2c0 Needles.enable_spi1
      (replace_first Needles.spi0_pins Needles.spi1_pins t))

unfoldable pub edit_board_h : Bytes → Bytes
edit_board_h =
    unless Needles.enable_spi1_pin_mux (replace_first Needles.declare_i2c0 Needles.declare_spi1)

unfoldable pub edit_board_mram : Bytes → Bytes
edit_board_mram =
    unless Needles.enable_spi1_pin_mux_call (replace_first Needles.init_i2c0 Needles.init_spi1)

unfoldable pub edit_board_fram : Bytes → Bytes
edit_board_fram = unless Needles.radsat_fram_overlay_env (λ t.
    replace_first Needles.late_init Needles.late_init_overlay (Needles.overlay_declaration ++ t))

-- the tree with the edits of a stage, where the header's edit gave `header`
abbrev pub mram_tree : Bytes → Tree → Bytes → Tree
mram_tree env_mram tree header = record {
  makefile = edit_makefile tree.makefile;
  env_mram_c = some env_mram;
  fram_mission_c = tree.fram_mission_c;
  header = header;
  environment_h = edit_environment tree.environment_h;
  mux = edit_mux tree.mux;
  board_h = edit_board_h tree.board_h;
  board_c = edit_board_mram tree.board_c;
}

abbrev pub fram_tree : Bytes → Tree → Tree
fram_tree fram_mission tree = record tree {
  makefile = edit_makefile tree.makefile;
  fram_mission_c = some fram_mission;
  board_c = edit_board_fram tree.board_c;
}

-- `env_mram` and `fram_mission` are the texts of the two new files
unfoldable pub edit_tree : Bytes → Bytes → Stage → Tree → Option Tree
edit_tree env_mram fram_mission mram tree = elim (edit_header tree.header) [
  | none ↦ none
  | some header ↦ some (mram_tree env_mram tree header)
]
edit_tree env_mram fram_mission fram tree = some (fram_tree fram_mission tree)
