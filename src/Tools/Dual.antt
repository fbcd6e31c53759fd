-- ===== src/Tools/Dual.antt =====
-- tools/gen-dual-uboot-patches.py: the edits behind the patches 0004 and 0005, and the C function that 0005 adds to
-- common/update_kubos.c.
pub mod Needles
pub mod Edits
pub mod Name
pub mod Patch
use radsat_linux.Base.{
  ℕ, zero, suc, ◌+◌, ◌-◌, Bool, true, false, List, [], ◌∷◌, ◌++◌, Option, none, some, Bytes, codes,
  bytes_eq, if◌then◌else◌, leb, ltb, ◌==◌, length, take,
}
use radsat_linux.Tools.Text.{occurs_in, must_replace}
use radsat_linux.Tools.Dual.Needles

unfoldable pub edit_spl : Bytes → Option Bytes
edit_spl t =
    must_replace t (Needles.spl_load ++ Needles.spl_end)
      (Needles.spl_load ++ Needles.spl_fallback ++ Needles.spl_end)

unfoldable pub edit_header : Bytes → Option Bytes
edit_header t = must_replace t Needles.dfu_old Needles.dfu_new

-- `if "kubos_fit_to_dfu_name" not in t: t = must_replace(...)`
unfoldable pub add_helper : Bytes → Option Bytes
add_helper t =
    if occurs_in Needles.helper_mark t
    then some t
    else must_replace t Needles.update_needle (Needles.helper ++ Needles.update_needle)

unfoldable pub edit_update : Bytes → Option Bytes
edit_update t = elim (add_helper t) [
  | none ↦ none
  | some t2 ↦ must_replace t2 Needles.write_old Needles.write_new
]

-- `strchr(fit_name, '@')`, as the number of characters in front of it, or `strlen(fit_name)`
unfoldable pub name_length : Bytes → ℕ
name_length [] = 0
name_length (c ∷ s) = let n = name_length s in if c == b'@' then 0 else suc n

-- `snprintf(out, outlen, "%s", s)` for `outlen` above 0: the string in `out`
abbrev pub snprintf : ℕ → Bytes → Bytes
snprintf outlen s = take (outlen - 1) s

-- `char base[64]`, with the name up to its unit
unfoldable pub base_name : Bytes → Bytes
base_name fit_name = let n = name_length fit_name in take (if leb 64 n then 63 else n) fit_name

-- what is printed into `out` for a base name
unfoldable pub printed_name : Bytes → Bytes
printed_name base =
    if bytes_eq base (codes "uboot")
    then codes "u-boot.img"
    else if bytes_eq base (codes "uboot-bak")
    then codes "u-boot-bak.img"
    else base

-- `kubos_fit_to_dfu_name` on a `fit_name` that is not NULL; none where it leaves `out` alone. Strings stand without
-- the final zero.
unfoldable pub kubos_fit_to_dfu_name : Bytes → ℕ → Option Bytes
kubos_fit_to_dfu_name fit_name outlen =
    if outlen == 0 then none else some (snprintf outlen (printed_name (base_name fit_name)))
