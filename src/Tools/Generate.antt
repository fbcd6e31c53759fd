-- ===== src/Tools/Generate.antt =====
-- `edit_tree` of tools/gen-mram-fram-uboot-patches.py, the script that tools/rewrite-uboot-0006-0007.py came after: it makes
-- the edits of both stages at once, and stops by `SystemExit`, which is none here, where a text is missing.
pub mod Blocks
pub mod Agrees
pub mod Heads
pub mod Patches
use radsat_linux.Base.{Bool, true, false, not, ◌&&◌, ◌++◌, Option, none, some, Bytes, if◌then◌else◌}
use radsat_linux.Base.Maybe.{◌>>=◌}
use radsat_linux.Tools.Text.{occurs_in, must_replace}
use radsat_linux.Tools.Tree.{Tree, replace_all, sub_between, edit_environment}
use radsat_linux.Tools.Tree.Needles

-- `if mark not in t: t = must_replace(t, old, new, label)`
unfoldable pub must_unless : Bytes → Bytes → Bytes → Bytes → Option Bytes
must_unless mark old new t = if occurs_in mark t then some t else must_replace t old new

unfoldable pub edit_makefile : Bytes → Option Bytes
edit_makefile t = must_unless Needles.env_mram_o Needles.object_line Needles.object_lines t

-- After 0002 patch, device is already 0:3
unfoldable pub edit_device : Bytes → Bytes
edit_device t =
    if not (occurs_in Blocks.device_emmc t) && occurs_in Blocks.device_sd t
    then replace_all Blocks.device_sd Blocks.device_emmc 0 t
    else t

-- the header that stands in the tree afterwards; it is not written where the guard does not hold
unfoldable pub edit_header : Bytes → Option Bytes
edit_header t =
    if occurs_in Needles.config_env_is_in_mram (edit_device t)
    then some t
    else sub_between Needles.spl_block_start Needles.spl_block_end Blocks.env_block (edit_device t)

unfoldable pub edit_mux : Bytes → Option Bytes
edit_mux t = if occurs_in Needles.spi1_pin_mux t then some t else do
  t2 ← must_replace t Needles.spi0_pins Needles.spi1_pins
  must_unless Needles.enable_spi1_pin_mux Needles.enable_i2c0 Needles.enable_spi1 t2

unfoldable pub edit_board_h : Bytes → Option Bytes
edit_board_h t = must_unless Needles.enable_spi1_pin_mux Needles.declare_i2c0 Needles.declare_spi1 t

-- the guard inside the guard is the same again
unfoldable pub edit_board_fram : Bytes → Option Bytes
edit_board_fram t =
    if occurs_in Needles.radsat_fram_overlay_env t
    then some t
    else must_replace (Needles.overlay_declaration ++ t) Needles.late_init Needles.late_init_overlay

unfoldable pub edit_board : Bytes → Option Bytes
edit_board t = do
  t2 ← must_unless Needles.enable_spi1_pin_mux Needles.init_i2c0 Needles.init_spi1 t
  edit_board_fram t2

-- `env_mram` and `fram_mission` are ENV_MRAM_C and FRAM_MISSION_C
unfoldable pub edit_tree : Bytes → Bytes → Tree → Option Tree
edit_tree env_mram fram_mission tree = do
  makefile ← edit_makefile tree.makefile
  header ← edit_header tree.header
  mux ← edit_mux tree.mux
  board_h ← edit_board_h tree.board_h
  board_c ← edit_board tree.board_c
  some (record {
    makefile = makefile;
    env_mram_c = some env_mram;
    fram_mission_c = some fram_mission;
    header = header;
    environment_h = edit_environment tree.environment_h;
    mux = mux;
    board_h = board_h;
    board_c = board_c;
  })
