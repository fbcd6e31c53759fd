-- ===== src/Tools/Dual/Patch.antt =====
-- `write_patch` and `main` of tools/gen-dual-uboot-patches.py. A run of `diff -u` on two paths and their texts, and the dry
-- run of patch, are arguments.
pub mod Stamps
use radsat_linux.Base.{
  Bool, true, false, ◌&&◌, ◌||◌, List, [], ◌∷◌, ◌++◌, Option, none, some, Bytes, codes, ◌==◌,
  if◌then◌else◌, map,
}
use radsat_linux.Base.Maybe.{◌>>=◌}
use radsat_linux.Tools.Text.{starts_with, splitlines}
use radsat_linux.Tools.Tree.{replace_all}
use radsat_linux.Tools.Whitelist.Main.{rstrip}
use radsat_linux.Tools.Diff.{concat}
use radsat_linux.Tools.Dual.{edit_spl, edit_header, edit_update}

-- `(rel, a, b)` with the texts that stand at the two paths
pub record Change : Type 0 where
  pub rel : Bytes
  pub a : Bytes
  pub a_text : Bytes
  pub b : Bytes
  pub b_text : Bytes

-- `line.split("\t")[0]`
unfoldable pub before_tab : Bytes → Bytes
before_tab [] = []
before_tab (c ∷ s) = let rest = before_tab s in if c == b'\t' then [] else c ∷ rest

abbrev pub is_title : Bytes → Bool
is_title line = starts_with (codes "--- ") line || starts_with (codes "+++ ") line

-- strip timestamps from diff headers if present
unfoldable pub strip_line : Bytes → Bytes
strip_line line = if is_title line then before_tab line ++ codes "\n" else line

unfoldable pub strip_stamps : Bytes → Bytes
strip_stamps text = concat (map strip_line (splitlines text))

unfoldable pub retitle : Change → Bytes → Bytes
retitle c text =
    replace_all (codes "+++ " ++ c.b) (codes "+++ b/" ++ c.rel) 0
      (replace_all (codes "--- " ++ c.a) (codes "--- a/" ++ c.rel) 0 text)

abbrev pub head : Bytes → Bytes → Bytes
head subject body = concat (
    codes "From 0000000000000000000000000000000000000000 Mon Sep 17 00:00:00 2001\n"
    ∷ codes "From: Radsat Developers <dev@radsat.local>\n"
    ∷ codes "Date: Fri, 30 Oct 2026 17:30:00 -0600\n"
    ∷ (codes "Subject: [PATCH] " ++ (subject ++ codes "\n"))
    ∷ codes "\n"
    ∷ (rstrip body ++ codes "\n")
    ∷ codes "\n"
    ∷ codes "---\n"
    ∷ [])

-- what a run leaves: nothing, 0004 alone, or both patches in both directories and whether the dry runs passed
pub data Outcome : Type 0 where
  stopped : Outcome
  wrote_p4 : Bytes → Outcome
  synced : Bytes → Bytes → Bool → Outcome

-- none is a return code other than 0 and 1
module _ (diff : Change → Option Bytes) where
  unfoldable pub chunks : List Change → Option Bytes
  chunks [] = some []
  chunks (c ∷ diffs) = do
    text ← diff c
    rest ← chunks diffs
    some (strip_stamps (retitle c text) ++ rest)

  -- the text of the patch, none where it leaves by `SystemExit`
  unfoldable pub write_patch : Bytes → Bytes → List Change → Option Bytes
  write_patch subject body diffs = do parts ← chunks diffs; some (head subject body ++ parts)

  unfoldable pub write_p4 : Bytes → Bytes → Bytes → Option Bytes
  write_p4 td spl spl_b =
      write_patch (codes "spl: mmc: fall back to u-boot-bak.img on FAT boot")
        (codes "If primary u-boot.img fails to load/validate, try u-boot-bak.img.")
        (record {
          rel = codes "common/spl/spl_mmc.c";
          a = td ++ codes "/spl_mmc.c.orig";
          a_text = spl;
          b = td ++ codes "/spl_mmc.c";
          b_text = spl_b;
        }
          ∷ [])

  unfoldable pub write_p5 : Bytes → Bytes → Bytes → Bytes → Bytes → Option Bytes
  write_p5 td hdr hdr_b upd upd_b =
      write_patch (codes "arm: am33xx: dual U-Boot DFU alts on boot MMC0")
        (codes "DFU on mmc0 with u-boot.img + u-boot-bak.img; map FIT uboot* names.")
        (record {
          rel = codes "include/configs/beaglebone-black.h";
          a = td ++ codes "/beaglebone-black.h.orig";
          a_text = hdr;
          b = td ++ codes "/beaglebone-black.h";
          b_text = hdr_b;
        }
          ∷ record {
            rel = codes "common/update_kubos.c";
            a = td ++ codes "/update_kubos.c.orig";
            a_text = upd;
            b = td ++ codes "/update_kubos.c";
            b_text = upd_b;
          }
          ∷ [])

  module _ (dry_run : Bytes → Bool) where
    abbrev pub with_p5 : Bytes → Option Bytes → Outcome
    with_p5 p4 none = wrote_p4 p4
    with_p5 p4 (some p5) = synced p4 p5 (dry_run p4 && dry_run p5)

    abbrev pub with_p4 : Option Bytes → Option Bytes → Outcome
    with_p4 none p5 = stopped
    with_p4 (some p4) p5 = with_p5 p4 p5

    abbrev pub outcome : Option Outcome → Outcome
    outcome none = stopped
    outcome (some o) = o

    -- `spl`, `hdr` and `upd` are the three files of the tree, none where there is no tree; `td` the temporary directory
    unfoldable pub main : Bytes → Option (Bytes × Bytes × Bytes) → Outcome
    main td none = stopped
    main td (some (spl, hdr, upd)) = outcome (do
      spl_b ← edit_spl spl
      hdr_b ← edit_header hdr
      upd_b ← edit_update upd
      some (with_p4 (write_p4 td spl spl_b) (write_p5 td hdr hdr_b upd upd_b)))
