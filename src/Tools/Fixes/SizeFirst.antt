-- ===== src/Tools/Fixes/SizeFirst.antt =====
-- tools/fix-envsize3.py: CONFIG_ENV_SIZE is taken out of the block of the MRAM in 0006-bbb-env-on-spi-mram.patch and put in front
-- of its comment. As in Tools.Fixes.Hunks, `apply` gives the header that the series makes with a text of that patch.
pub mod Needles
use radsat_linux.Base.{
  ℕ, zero, suc, ◌+◌, ◌-◌, Bool, true, false, ◌&&◌, not, [], ◌∷◌, ◌++◌, Option, none, some, Bytes,
  codes, ◌==◌, if◌then◌else◌, length, drop, take,
}
use radsat_linux.Base.Maybe.{◌>>=◌}
use radsat_linux.Tools.Text.{starts_with, occurs_in, replace_first}
use radsat_linux.Tools.Whitelist.Main.{before_first}
use radsat_linux.Tools.Services.{after}
use radsat_linux.Tools.Fixes.Hunks.{Outcome, finish, before, last}
use radsat_linux.Tools.Fixes.SizeFirst.Needles

-- `t.count(old)`, `old` being not empty; `skip` characters of an occurrence are still to be passed
unfoldable pub count : Bytes → ℕ → Bytes → ℕ
count old skip [] = 0
count old (suc skip) (c ∷ text) = count old skip text
count old zero (c ∷ text) = elim (starts_with old (c ∷ text)) [
  | true ↦ suc (count old (length old - 1) text)
  | false ↦ count old zero text
]

-- `\t*`, of which the text behind it is kept
unfoldable pub skip_tabs : Bytes → Bytes
skip_tabs [] = []
skip_tabs (c ∷ s) = let rest = skip_tabs s in if c == b'\t' then rest else c ∷ s

-- `\t+`
abbrev pub after_tabs : Bytes → Option Bytes
after_tabs [] = none
after_tabs (c ∷ s) = if c == b'\t' then some (skip_tabs s) else none

-- the group at the front of a text: the text behind it
unfoldable pub offset_line : Bytes → Option Bytes
offset_line s = do
  tabs ← after (codes "+#define CONFIG_ENV_MRAM_OFFSET") s
  value ← after_tabs tabs
  after (codes "0x7D800\n") value

-- the line behind the group
unfoldable pub size_line : Bytes → Option Bytes
size_line s = do
  tabs ← after (codes "+#define CONFIG_ENV_SIZE") s
  value ← after_tabs tabs
  after (codes "(10 * 1024)\n") value

-- the line of the size, directly behind that of the offset, is left out once
unfoldable pub drop_size : Bytes → Bytes
drop_size [] = []
drop_size (c ∷ s) =
    let later = c ∷ drop_size s in
    elim (offset_line (c ∷ s)) [
      | none ↦ later
      | some behind ↦ elim (size_line behind) [
        | none ↦ later
        | some rest ↦ take (length (c ∷ s) - length behind) (c ∷ s) ++ rest
      ]
    ]

unfoldable pub put_size_first : Bytes → Bytes
put_size_first t =
    if occurs_in (codes "+#define CONFIG_ENV_SIZE")
      (last 80 (before_first (codes "SPL has no SPI") t))
    then t
    else replace_first Needles.spl_comment Needles.size_and_comment t

unfoldable pub fix_envsize3 : (Bytes → Option Bytes) → Bytes → Outcome
fix_envsize3 apply t =
    finish apply
      (λ hdr.
        before (codes "#define CONFIG_ENV_SIZE") (codes "#ifdef CONFIG_SPL_BUILD") hdr
        && count (codes "#define CONFIG_ENV_SIZE") 0 hdr == 1)
      (some (put_size_first (drop_size t)))
