-- ===== src/Tools/Fixes/UbootPatches.antt =====
-- tools/fix-uboot-patches-mram.py: the functions that it puts in place of older ones inside the patches 0006 and 0007.
-- A run that leaves by `SystemExit` gives none.
pub mod Needles
pub mod Lines
use radsat_linux.Base.{Option, none, some, Bytes, not, if◌then◌else◌}
use radsat_linux.Tools.Text.{occurs_in}
use radsat_linux.Tools.Tree.{replace_all}
use radsat_linux.Tools.Fixes.UbootPatches.Needles

-- 0007-bbb-fram-mission-policy.patch
unfoldable pub fix_policy : Bytes → Option Bytes
fix_policy t =
    if not (occurs_in Needles.layout_ok t)
    then none
    else if not (occurs_in Needles.skip_missing t)
    then none
    else some (
        replace_all Needles.skip_missing Needles.skip_mismatch 0
          (replace_all Needles.layout_ok Needles.present_invalid 0 t))

-- 0006-bbb-env-on-spi-mram.patch
unfoldable pub fix_env : Bytes → Option Bytes
fix_env t6 =
    if not (occurs_in Needles.xfer_two_buffers t6)
    then none
    else some (
        replace_all Needles.write_call Needles.write_call_one_buffer 0 (
          replace_all Needles.wren_call Needles.wren_call_one_buffer 0 (
            replace_all Needles.read_call Needles.read_call_one_buffer 0
              (replace_all Needles.xfer_two_buffers Needles.xfer_one_buffer 0 t6))))
