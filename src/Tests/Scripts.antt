-- ===== src/Tests/Scripts.antt =====
-- The one-off scripts and the first patch generator, on short texts.
use radsat_linux.Base.{
  suc, ◌+◌, ◌≡◌, ◌≤◌, refl, true, false, [], ◌∷◌, ◌++◌, Option, none, some, Bytes, codes, arith,
  length, ◌⊎◌,
}
use radsat_linux.Tools.Text.{starts_with, occurs_in, replace_first, must_replace, splitlines}
use radsat_linux.Tools.Text.Positions.{positions}
use radsat_linux.Tools.Tree.{
  replace_all, after_first, sub_between, mram, fram, Tree, mram_tree, fram_tree, edit_header,
  edit_tree, edit_environment, unless,
}
use radsat_linux.Tools.Tree.Needles
use radsat_linux.Tools.Generate
use radsat_linux.Tools.Generate.Blocks
use radsat_linux.Tools.Generate.Agrees.{with_files, edit_tree-agrees}
use radsat_linux.Tools.Fixes.MramBits.{marker_loop, fix_backend}
use radsat_linux.Tools.Fixes.MramBits.Needles as Bits
use radsat_linux.Tools.Fixes.MramBits.Markers.{marker_loop-ends}
use radsat_linux.Tools.Fixes.MramBits.Once.{fix_backend-once}
use radsat_linux.Tools.Fixes.UbootPatches.{fix_policy}
use radsat_linux.Tools.Fixes.UbootPatches.Needles as Policy
use radsat_linux.Tools.Fixes.UbootPatches.Lines.{lines, differs, clear, fix_policy-lines}
use radsat_linux.Tools.Fixes.Hunks.{wrote, finish, fix_env_size_spl, fix_spl_env_nowhere4}
use radsat_linux.Tools.Fixes.Hunks.Needles as Hunk
use radsat_linux.Tools.Fixes.Hunks.Tally.{old_side, new_side, tally}
use radsat_linux.Tools.Fixes.Hunks.Sizes.{
  env_size_spl, envsize2, hunk_sizes, run, declares_24, declares_25, usbeth_lines, spl_lines,
  run-sizes, nowhere4_declares,
}
use radsat_linux.Tools.Tree.Patches.Cover.{
  HasHead, mram_parts, fram_parts, Verified, IsPlainFile, main-Verified,
}
use radsat_linux.Tools.Tree.Patches.Parts.{make}
use radsat_linux.Tools.Diff.NewFile.{only_newlines, end_text}
use radsat_linux.Tools.Diff.{ends_line}
use radsat_linux.Tools.Generate.Patches.{board6}

marker_loop-ends_example :
    marker_loop 6 (b'a' ∷ b'a' ∷ []) (codes "aaxaa") 0 []
    ≡ some (positions (b'a' ∷ b'a' ∷ []) 0 (codes "aaxaa"))
marker_loop-ends_example = marker_loop-ends b'a' (b'a' ∷ []) (codes "aaxaa")

abbrev window_twice : Bytes
window_twice = Bits.marker ++ codes " a\n" ++ Bits.marker ++ codes " b\n"

fix_backend-once_example :
    (fixed : Bytes) × (fix_backend (suc (length window_twice)) window_twice ≡ some fixed)
    × (length (positions Bits.marker 0 fixed) ≤ 1)
fix_backend-once_example = fix_backend-once window_twice

abbrev patch_head : Bytes
patch_head = codes "+++ b/common/fram_mission.c\n@@ -0,0 +1,16 @@\n"

head_clear_layout : clear Policy.layout_ok patch_head ≡ true
unfolding clear differs
head_clear_layout = refl

head_clear_skip : clear Policy.skip_missing patch_head ≡ true
unfolding clear differs
head_clear_skip = refl

abbrev patch_body : Bytes
patch_body = Policy.layout_ok ++ Policy.skip_missing

abbrev fixed_patch : Bytes
fixed_patch = patch_head ++ (Policy.present_invalid ++ Policy.skip_mismatch)

fix_policy_runs : fix_policy (patch_head ++ patch_body) ≡ some fixed_patch
unfolding fix_policy occurs_in starts_with replace_all
fix_policy_runs = refl

fix_policy-lines_example :
    (body2 : Bytes) × (fixed_patch ≡ patch_head ++ body2) × (lines patch_body + 8 ≤ lines body2)
fix_policy-lines_example =
    fix_policy-lines patch_head patch_body fixed_patch head_clear_layout head_clear_skip
      fix_policy_runs

abbrev tree : Tree
tree = record {
  makefile = Needles.object_line;
  env_mram_c = none;
  fram_mission_c = none;
  header = Needles.spl_block_start ++ codes " build\n" ++ Needles.spl_block_end;
  environment_h = Needles.not_in_spi_flash;
  mux = Needles.spi0_pins ++ Needles.enable_i2c0;
  board_h = Needles.declare_i2c0;
  board_c = Needles.init_i2c0 ++ Needles.late_init;
}

abbrev edited : Tree
edited = record {
  makefile = Needles.object_lines;
  env_mram_c = some (codes "/* first mram */\n");
  fram_mission_c = some (codes "/* first fram */\n");
  header = Blocks.env_block;
  environment_h = Needles.not_in_mram;
  mux = Needles.spi1_pins ++ Needles.enable_spi1;
  board_h = Needles.declare_spi1;
  board_c = Needles.overlay_declaration ++ Needles.init_spi1 ++ Needles.late_init_overlay;
}

abbrev after_mram : Tree
after_mram = mram_tree (codes "/* mram */\n") tree Needles.mram_block

header_runs : edit_header tree.header ≡ some Needles.mram_block
unfolding edit_header sub_between after_first starts_with occurs_in
header_runs = refl

mram_runs : edit_tree (codes "/* mram */\n") (codes "/* fram */\n") mram tree ≡ some after_mram
unfolding edit_tree
mram_runs = rw (header_runs, edit_tree) refl

fram_runs :
    edit_tree (codes "/* mram */\n") (codes "/* fram */\n") fram after_mram
    ≡ some (fram_tree (codes "/* fram */\n") after_mram)
unfolding edit_tree
fram_runs = refl

generate_runs :
    Generate.edit_tree (codes "/* first mram */\n") (codes "/* first fram */\n") tree ≡ some edited
unfolding Generate.edit_tree Generate.edit_makefile Generate.edit_header Generate.edit_device
    Generate.edit_mux Generate.edit_board_h Generate.edit_board Generate.edit_board_fram
    Generate.must_unless edit_environment unless must_replace replace_first replace_all sub_between
    after_first starts_with occurs_in
generate_runs = refl

guards_alike :
    occurs_in Needles.enable_spi1_pin_mux tree.board_c
    ≡ occurs_in Needles.enable_spi1_pin_mux_call tree.board_c
unfolding occurs_in starts_with
guards_alike = refl

one_line : length (positions Needles.object_line 0 tree.makefile) ≤ 1
unfolding positions starts_with
one_line = omega arith

edit_tree-agrees_example : with_files edited (fram_tree (codes "/* fram */\n") after_mram) ≡ edited
edit_tree-agrees_example =
    edit_tree-agrees (codes "/* first mram */\n") (codes "/* mram */\n")
      (codes "/* first fram */\n") (codes "/* fram */\n") tree edited after_mram
      (fram_tree (codes "/* fram */\n") after_mram) generate_runs mram_runs fram_runs guards_alike
      one_line

-- patch fails
abbrev no_header : Bytes → Option Bytes
no_header p = none

size_script_runs :
    run no_header env_size_spl (codes "--- a\n" ++ Hunk.size_inside)
    ≡ wrote (codes "--- a\n" ++ Hunk.size_first) false
unfolding run finish fix_env_size_spl fix_spl_env_nowhere4 must_replace replace_first occurs_in
    starts_with
size_script_runs = refl

run-sizes_example :
    (tally old_side true (codes "--- a\n" ++ Hunk.size_first)
      ≡ tally old_side true (codes "--- a\n" ++ Hunk.size_inside))
    × (tally new_side true (codes "--- a\n" ++ Hunk.size_first)
        ≡ tally new_side true (codes "--- a\n" ++ Hunk.size_inside))
    × ((env_size_spl ≡ envsize2)
        ⊎ (hunk_sizes old_side (codes "--- a\n" ++ Hunk.size_first)
            ≡ hunk_sizes old_side (codes "--- a\n" ++ Hunk.size_inside)))
    × ((env_size_spl ≡ envsize2)
        ⊎ (hunk_sizes new_side (codes "--- a\n" ++ Hunk.size_first)
            ≡ hunk_sizes new_side (codes "--- a\n" ++ Hunk.size_inside)))
run-sizes_example =
    run-sizes no_header env_size_spl (codes "--- a\n" ++ Hunk.size_inside)
      (codes "--- a\n" ++ Hunk.size_first) false size_script_runs

hunk_script_runs :
    fix_spl_env_nowhere4 no_header (codes "--- a\n" ++ Hunk.usbeth_hunk)
    ≡ wrote (codes "--- a\n" ++ Hunk.spl_hunk) false
unfolding run finish fix_env_size_spl fix_spl_env_nowhere4 must_replace replace_first occurs_in
    starts_with
hunk_script_runs = refl

nowhere4_declares_example :
    ((pre : Bytes) × (post : Bytes) × (codes "--- a\n" ++ Hunk.usbeth_hunk
        ≡ pre ++ (declares_24 ++ usbeth_lines) ++ post)
      × (codes "--- a\n" ++ Hunk.spl_hunk ≡ pre ++ (declares_25 ++ spl_lines) ++ post))
    × (tally old_side true spl_lines ≡ tally old_side true usbeth_lines)
    × (tally new_side true spl_lines ≡ tally new_side true usbeth_lines)
nowhere4_declares_example =
    nowhere4_declares no_header (codes "--- a\n" ++ Hunk.usbeth_hunk)
      (codes "--- a\n" ++ Hunk.spl_hunk) false hunk_script_runs

-- a diff that shows nothing, and a patch that makes the changes of the first stage where env_mram.c is not there
abbrev silent : Bytes → Bytes → Bytes
silent a b = []

silent_head : HasHead silent
unfolding splitlines
silent_head a b line e = absurd (cc e)

abbrev after_both : Tree
after_both = fram_tree (codes "/* fram */\n") after_mram

abbrev patched : Option Bytes → Tree → Option Tree
patched none t = make (mram_parts silent silent_head (codes "/* mram */\n") t after_mram) t
patched (some c) t = make (fram_parts silent silent_head (codes "/* fram */\n") t after_both) t

abbrev patch_tree : Bytes → Tree → Option Tree
patch_tree p t = patched t.env_mram_c t

plain_mram : IsPlainFile silent silent_head patch_tree (codes "/* mram */\n")
unfolding only_newlines end_text ends_line
plain_mram = (refl, refl)

plain_fram : IsPlainFile silent silent_head patch_tree (codes "/* fram */\n")
unfolding only_newlines end_text ends_line
plain_fram = (refl, refl)

main-Verified_example :
    Verified silent silent_head patch_tree
      (codes "/* mram */\n")
      (codes "/* fram */\n")
      tree
      after_both
main-Verified_example =
    main-Verified silent silent_head patch_tree (codes "/* mram */\n") (codes "/* fram */\n") tree
      after_mram after_both mram_runs fram_runs refl refl plain_mram plain_fram
      (λ text t2 e made. made, λ text t2 e made. made)

no_enable_yet : occurs_in Needles.enable_spi1_pin_mux tree.board_c ≡ false
unfolding occurs_in starts_with
no_enable_yet = refl

one_init : length (positions Needles.init_i2c0 0 tree.board_c) ≤ 1
unfolding positions starts_with
one_init = omega arith

one_late_init :
    length (positions Needles.late_init 0 (Needles.overlay_declaration ++ board6 tree.board_c)) ≤ 1
unfolding positions starts_with board6 replace_all
one_late_init = omega arith
