-- ===== src/Tools/Whitelist.antt =====
-- The merge of names into scripts/config_whitelist.txt by tools/fix-uboot-whitelist-sorted.py.
pub mod Merged
pub mod Main
pub mod Append
use radsat_linux.Base.{
  ℕ, Bool, true, false, not, ◌&&◌, ◌||◌, List, [], ◌∷◌, ◌++◌, Bytes, codes, bytes_eq, ltb, leb,
  ◌==◌, if◌then◌else◌,
}
use radsat_linux.Tools.Text.{is_line_break, splitlines}
use radsat_linux.Tools.Diff.{concat}

-- NEW
abbrev pub new_names : List Bytes
new_names =
    codes "CONFIG_ENV_IS_IN_MRAM"
    ∷ codes "CONFIG_ENV_MRAM_BUS"
    ∷ codes "CONFIG_ENV_MRAM_CS"
    ∷ codes "CONFIG_ENV_MRAM_MAX_HZ"
    ∷ codes "CONFIG_ENV_MRAM_MODE"
    ∷ codes "CONFIG_ENV_MRAM_OFFSET"
    ∷ codes "CONFIG_FRAM_I2C_ADDR"
    ∷ codes "CONFIG_FRAM_I2C_BUS"
    ∷ codes "CONFIG_RADSAT_FRAM_POLICY"
    ∷ []

-- a line of `splitlines(True)` without its end, which is what `splitlines()` gives
unfoldable pub chop_line : Bytes → Bytes
chop_line [] = []
chop_line (c ∷ []) = if is_line_break c then [] else c ∷ []
chop_line (c ∷ d ∷ s) =
    let rest = chop_line (d ∷ s) in
    if c == 13 && bytes_eq (d ∷ s) (codes "\n") then [] else c ∷ rest

-- the characters that `strip` takes away
abbrev pub is_space : ℕ → Bool
is_space c =
    (leb 9 c && leb c 13)
    || (leb 28 c && leb c 32)
    || c == 0x85
    || c == 0xa0
    || c == 0x1680
    || (leb 0x2000 c && leb c 0x200a)
    || c == 0x2028
    || c == 0x2029
    || c == 0x202f
    || c == 0x205f
    || c == 0x3000

-- `not ln.strip()`
unfoldable pub is_blank_line : Bytes → Bool
is_blank_line [] = true
is_blank_line (c ∷ s) = is_space c && is_blank_line s

-- `[ln for ln in ... if ln.strip()]`
unfoldable pub filled_lines : List Bytes → List Bytes
filled_lines [] = []
filled_lines (line ∷ lines) =
    let rest = filled_lines lines in
    let name = chop_line line in if is_blank_line name then rest else name ∷ rest

-- `n in lines`
unfoldable pub mem : Bytes → List Bytes → Bool
mem n [] = false
mem n (line ∷ lines) = bytes_eq n line || mem n lines

-- `for n in NEW: if n not in lines: lines.append(n)`
unfoldable pub append_missing : List Bytes → List Bytes → List Bytes
append_missing [] lines = lines
append_missing (n ∷ names) lines =
    append_missing names (if mem n lines then lines else lines ++ n ∷ [])

-- `a < b` on texts
unfoldable pub lt_text : Bytes → Bytes → Bool
lt_text s [] = false
lt_text [] (b ∷ t) = true
lt_text (a ∷ s) (b ∷ t) = ltb a b || (a == b && lt_text s t)

-- `sorted(set(lines))`, by insertion
unfoldable pub insert : Bytes → List Bytes → List Bytes
insert x [] = x ∷ []
insert x (y ∷ ys) =
    let rest = insert x ys in
    if lt_text x y then x ∷ y ∷ ys else if lt_text y x then y ∷ rest else y ∷ ys

unfoldable pub sorted_set : List Bytes → List Bytes
sorted_set [] = []
sorted_set (line ∷ lines) = insert line (sorted_set lines)

unfoldable pub merged : Bytes → List Bytes
merged whitelist = sorted_set (append_missing new_names (filled_lines (splitlines whitelist)))

-- the text that is written: `"\n".join(lines) + "\n"`, the lines being not none
unfoldable pub merged_text : List Bytes → Bytes
merged_text [] = []
merged_text (line ∷ lines) = (line ++ codes "\n") ++ merged_text lines
