-- ===== src/Tests/Tools.antt =====
-- The scripts' work on text, on short texts.
use radsat_linux.Tools.Diff.NewFile.{no_breaks, is_line, only_newlines, end_text, newfile_diff_lem}
use radsat_linux.Tools.Dual.Patch.Stamps.{
  IsPrinted, no_tabs, DiffLine, stamped, bare, other, print, stripped, strip_stamps-print,
}
use radsat_linux.Base.{
  All, Option, ◌≤◌, ◌≡◌, ◌≢◌, ◌⊎◌, refl, true, [], ◌∷◌, ◌++◌, none, some, Bytes, codes, length,
  take, drop, map, List, false,
}
use radsat_linux.Tools.Dual.Patch.{strip_stamps}
use radsat_linux.Tools.Text.{starts_with, occurs_in, replace_first, must_replace, splitlines}
use radsat_linux.Tools.Text.Replace.{must_replace_lem}
use radsat_linux.Tools.Tree.{
  after_first, sub_between, mram, Tree, mram_tree, edit_header, edit_tree,
}
use radsat_linux.Tools.Tree.Needles
use radsat_linux.Tools.Diff.{str, concat, newfile_diff}
use radsat_linux.Tools.Dual.{edit_spl}
use radsat_linux.Tools.Dual.Needles as Dual
use radsat_linux.Tools.Model.{edit_id, edit_env_name, edit_value_type}
use radsat_linux.Tools.Model.Leftover.{no_brace, edit_id_leftover}

arms_are_plain :
    no_brace (codes "\n        match self {\n            Self::Deployed => 2,\n        ") ≡ true
unfolding no_brace
arms_are_plain = refl

edit_id_leftover_example :
    (edit_id (codes "new") (
        codes "pub fn id(self) -> u8 {"
        ++ (codes "\n        match self {\n            Self::Deployed => 2,\n        "
            ++ (codes "}\n    }" ++ codes "\n}\n")))
      ≡ some (codes "new" ++ (codes "\n    }" ++ codes "\n}\n")))
    × (edit_env_name (codes "new") (
          codes "pub fn env_name(self) -> &'static str {"
          ++ (codes "\n        match self {\n            Self::Deployed => 2,\n        "
              ++ (codes "}\n    }" ++ codes "\n}\n")))
        ≡ some (codes "new" ++ (codes "\n    }" ++ codes "\n}\n")))
    × (edit_value_type (codes "new") (
          codes "pub fn declared_value_type(self) -> ValueType {"
          ++ (codes "\n        match self {\n            Self::Deployed => 2,\n        "
              ++ (codes "}\n    }" ++ codes "\n}\n")))
        ≡ some (codes "new" ++ (codes "\n    }" ++ codes "\n}\n")))
edit_id_leftover_example =
    edit_id_leftover (codes "\n        match self {\n            Self::Deployed => 2,\n        ")
      (codes "new") (codes "\n}\n") arms_are_plain

-- patch gives the first whitelist under the old patch, and fails under the new one
abbrev old_tree : Bytes → Option Bytes
old_tree patch = some (codes "CONFIG_B\n")

abbrev no_tree : Bytes → Option Bytes
no_tree patch = none

abbrev three_lines : Bytes → Bytes → Bytes
three_lines old new = codes "a\nb\nc\n"

must_replace_example :
    ((pre : Bytes) × (post : Bytes) × (codes "abcb" ≡ pre ++ codes "b" ++ post)
      × (must_replace (codes "abcb") (codes "b") (codes "xy") ≡ some (pre ++ codes "xy" ++ post))
      × ((p q : Bytes) → codes "abcb" ≡ p ++ codes "b" ++ q → length pre ≤ length p))
    ⊎ ((must_replace (codes "abcb") (codes "b") (codes "xy") ≡ none)
        × ((p q : Bytes) → codes "abcb" ≢ p ++ codes "b" ++ q))
must_replace_example = must_replace_lem (codes "abcb") (codes "b") (codes "xy")

abbrev tree : Tree
tree = record {
  makefile = Needles.object_line;
  env_mram_c = none;
  fram_mission_c = none;
  header = Needles.spl_block_start ++ codes " build\n" ++ Needles.spl_block_end;
  environment_h = Needles.not_in_spi_flash;
  mux = Needles.spi0_pins ++ Needles.enable_i2c0;
  board_h = Needles.declare_i2c0;
  board_c = Needles.init_i2c0 ++ Needles.late_init;
}

edit_header_runs : edit_header tree.header ≡ some Needles.mram_block
unfolding edit_header sub_between after_first starts_with occurs_in
edit_header_runs = refl

edit_tree_runs :
    edit_tree (codes "/* mram */") (codes "/* fram */") mram tree
    ≡ some (mram_tree (codes "/* mram */") tree Needles.mram_block)
unfolding edit_tree
edit_tree_runs = rw (edit_header_runs, edit_tree) refl

path_is_plain : no_breaks (codes "common/env_mram.c") ≡ true
unfolding no_breaks
path_is_plain = refl

text_is_plain : only_newlines (codes "a\nb") ≡ true
unfolding only_newlines
text_is_plain = refl

newfile_diff_example :
    let lines = splitlines (newfile_diff (codes "common/env_mram.c") (codes "a\nb")) in
    (take 1 (drop 4 lines)
      ≡ (codes "@@ -0,0 +1," ++ (str (length (drop 5 lines)) ++ codes " @@\n")) ∷ [])
    × (concat (map (drop 1) (drop 5 lines)) ≡ end_text (codes "a\nb"))
newfile_diff_example =
    newfile_diff_lem (codes "common/env_mram.c") (codes "a\nb") path_is_plain text_is_plain

edit_spl_runs :
    edit_spl (Dual.spl_load ++ Dual.spl_end)
    ≡ some (Dual.spl_load ++ Dual.spl_fallback ++ Dual.spl_end)
unfolding edit_spl must_replace replace_first occurs_in starts_with
edit_spl_runs = refl

abbrev diff_lines : List DiffLine
diff_lines =
    stamped true (codes "a/x.sql") (codes "2026-10-30 17:30")
    ∷ stamped false (codes "b/x.sql") (codes "2026-10-30 17:31")
    ∷ other (codes "@@ -1 +1 @@\n")
    ∷ bare true (codes "drop it")
    ∷ other (codes "+kept\n")
    ∷ []

diff_lines-IsPrinted : All IsPrinted diff_lines
unfolding no_breaks no_tabs is_line starts_with
diff_lines-IsPrinted =
    ((refl, refl, refl), ((refl, refl, refl), ((refl, refl), ((refl, refl), ((refl, refl), tt)))))

strip_stamps-print_example :
    strip_stamps (concat (map print diff_lines)) ≡ concat (map stripped diff_lines)
strip_stamps-print_example = strip_stamps-print diff_lines diff_lines-IsPrinted
