-- ===== src/Tools/Fixes/MramBits.antt =====
-- tools/fix-mram-bits.py: the window that an earlier script put twice into mram-service's src/backend.rs is taken
-- out again. The loop `while True` is recursion on fuel; none is a loop that goes on.
pub mod Needles
pub mod Markers
pub mod Once
use radsat_linux.Base.{
  ℕ, zero, suc, ◌+◌, List, [], ◌∷◌, ◌++◌, Option, none, some, Bytes, codes, if◌then◌else◌, take,
  drop,
}
use radsat_linux.Tools.Text.{starts_with}
use radsat_linux.Tools.Tree.{replace_all, unless}
use radsat_linux.Tools.Whitelist.Main.{rstrip}
use radsat_linux.Tools.Fixes.MramBits.Needles

-- an index further along
abbrev pub later : Option ℕ → Option ℕ
later none = none
later (some i) = some (suc i)

-- `text.find(marker)`
unfoldable pub find : Bytes → Bytes → Option ℕ
find marker [] = if starts_with marker [] then some 0 else none
find marker (c ∷ text) =
    let rest = later (find marker text) in if starts_with marker (c ∷ text) then some 0 else rest

abbrev pub from : ℕ → Option ℕ → Option ℕ
from start none = none
from start (some i) = some (start + i)

-- `text.find(marker, start)`, `marker` being not empty; none for -1
abbrev pub find_from : Bytes → Bytes → ℕ → Option ℕ
find_from marker text start = from start (find marker (drop start text))

unfoldable pub marker_loop : ℕ → Bytes → Bytes → ℕ → List ℕ → Option (List ℕ)
marker_loop zero marker text start idxs = none
marker_loop (suc fuel) marker text start idxs = elim (find_from marker text start) [
  | none ↦ some idxs
  | some i ↦ marker_loop fuel marker text (suc i) (idxs ++ i ∷ [])
]

-- `if len(idxs) >= 2: text = text[: idxs[1]].rstrip() + "\n"`
unfoldable pub cut_second : List ℕ → Bytes → Bytes
cut_second [] text = text
cut_second (i ∷ []) text = text
cut_second (i ∷ j ∷ idxs) text = rstrip (take j text) ++ codes "\n"

abbrev pub cut_found : Option (List ℕ) → Bytes → Option Bytes
cut_found none text = none
cut_found (some idxs) text = some (cut_second idxs text)

-- what is written to backend.rs
unfoldable pub fix_backend : ℕ → Bytes → Option Bytes
fix_backend fuel text =
    let once = replace_all Needles.twice_invalid Needles.once_invalid 0 text in
    cut_found (marker_loop fuel Needles.marker once 0 []) once

-- what is written to fs.rs
unfoldable pub fix_fs : Bytes → Bytes
fix_fs ft = replace_all Needles.chip_blocks Needles.payload_blocks 0 ft

-- what is written to kubos-mram.mk
unfoldable pub fix_mk : Bytes → Bytes
fix_mk mt =
    unless Needles.sync_mark (replace_all Needles.install_service Needles.install_both 0)
      (unless Needles.offset_mark (replace_all Needles.spi_mode Needles.spi_mode_region 0) mt)
