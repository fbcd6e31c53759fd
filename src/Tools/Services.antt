-- ===== src/Tools/Services.antt =====
-- The scripts of tools/ that fix single places of the services and of sync-and-build-image.sh: fix-sync-and-tests.py,
-- fix-sync-verify-helper.py, fix-backend-enum.py, fix-mram-graphql-cap.py, fix-fram-graphql-test.py and
-- fix-fram-i2c-default.py. A run that leaves by `SystemExit` gives none.
pub mod Needles
pub mod Blocks
pub mod EnvRegion
pub mod Settings
use radsat_linux.Base.{
  ℕ, zero, suc, ◌-◌, Bool, true, false, not, ◌&&◌, List, [], ◌∷◌, ◌++◌, Option, none, some, Bytes,
  codes, if◌then◌else◌, ◌==◌, drop, take, length,
}
use radsat_linux.Base.Maybe.{◌>>=◌}
use radsat_linux.Tools.Text.{starts_with, occurs_in, must_replace}
use radsat_linux.Tools.Tree.{replace_all, after_first, unless}
use radsat_linux.Tools.Whitelist.{is_space}
use radsat_linux.Tools.Whitelist.Main.{before_first}
use radsat_linux.Tools.Fixes.Hunks.{last}
use radsat_linux.Tools.Fixes.MramBits.{find}
use radsat_linux.Tools.Services.Needles

-- `\s*`, of which the text behind it is kept
unfoldable pub skip_spaces : Bytes → Bytes
skip_spaces [] = []
skip_spaces (c ∷ s) = let rest = skip_spaces s in if is_space c then rest else c ∷ s

abbrev pub after : Bytes → Bytes → Option Bytes
after mark s = if starts_with mark s then some (drop (length mark) s) else none

-- a match of the regular expression at the front: the text behind it
unfoldable pub match_assert : Bytes → Option Bytes
match_assert s = do
  spaced ← after (codes "assert_eq!(storage[\"capacityBytes\"],") s
  after (codes "524288)") (skip_spaces spaced)

-- `re.subn(...)`, with the characters of a match that are still to be passed
unfoldable pub sub_assert : ℕ → Bytes → Bytes
sub_assert skip [] = []
sub_assert (suc skip) (c ∷ s) = sub_assert skip s
sub_assert zero (c ∷ s) = elim (match_assert (c ∷ s)) [
  | none ↦ c ∷ sub_assert zero s
  | some rest ↦ Needles.payload_assert ++ sub_assert (length s - length rest) s
]

-- the first edit of tests/graphql.rs of mram-service
unfoldable pub add_settings : Bytes → Bytes
add_settings = replace_all Needles.capacity_line Needles.capacity_lines 0

unfoldable pub fix_mram_test : Bytes → Bytes
fix_mram_test t =
    let t2 = add_settings t in
    if occurs_in Needles.storage_assert t2
    then replace_all Needles.storage_assert Needles.payload_assert 0 t2
    else if occurs_in (codes "capacityBytes") t2 && occurs_in (codes "524288") t2
    then sub_assert 0 t2
    else t2

-- `if mark not in st: st = st.replace(old, new)`
abbrev unless_replace : Bytes → Bytes → Bytes → Bytes → Bytes
unless_replace mark old new = unless mark (replace_all old new 0)

-- `st.split("chmod +x")[1][:800]`, where "chmod +x" occurs
unfoldable pub chmod_part : Bytes → Bytes
chmod_part st = elim (after_first (codes "chmod +x") st) [
  | none ↦ []
  | some rest ↦ take 800 (before_first (codes "chmod +x") rest)
]

unfoldable pub add_chmod : Bytes → Bytes
add_chmod st =
    if occurs_in (codes "fram-get") st && occurs_in (codes "chmod +x") st
    then (if occurs_in (codes "fram-get") (chmod_part st)
        then st
        else replace_all Needles.chmod_install_os Needles.chmod_s79 0 st)
    else st

-- `st[st.find("Keep FRAM") :]`, which is the last character where the text is missing
unfoldable pub keep_part : Bytes → Bytes
keep_part st = elim (find (codes "Keep FRAM") st) [ none ↦ last 1 st | some i ↦ drop i st ]

unfoldable pub add_install : Bytes → Bytes
add_install st =
    if occurs_in (codes "S79mram-env-sync") (keep_part st)
    then st
    else replace_all Needles.install_mram Needles.install_s79 0 st

-- sync-and-build-image.sh
unfoldable pub fix_sync_script : Bytes → Bytes
fix_sync_script st = add_install (
    replace_all Needles.force_off Needles.force_on 0 (
      add_chmod (
        unless_replace (codes "S79mram-env-sync") Needles.sync_install_os Needles.sync_s79 (
          unless_replace (codes "0006-bbb-env-on-spi-mram.patch") Needles.sync_0005
            Needles.sync_0007 st))))

-- fix-sync-verify-helper.py
unfoldable pub fix_verify_helper : Bytes → Bytes
fix_verify_helper = unless (codes "verify-mram-fram-boot") λ t.
    replace_all Needles.install_fram_set Needles.install_verify 0 (
      replace_all Needles.chmod_fram_set Needles.chmod_verify 0
        (replace_all Needles.sync_fram_set Needles.sync_verify 0 t))

-- fix-backend-enum.py
unfoldable pub fix_backend_enum : Bytes → Option Bytes
fix_backend_enum t = must_replace t Needles.two_configs Needles.one_config

-- fix-mram-graphql-cap.py
unfoldable pub fix_graphql_cap : Bytes → Bytes
fix_graphql_cap t =
    unless_replace (codes "env_offset = 514048") Needles.capacity_line Needles.capacity_lines
      (replace_all Needles.data_storage_assert Needles.data_payload_assert 0 t)

-- fix-fram-graphql-test.py
unfoldable pub fix_fram_test : Bytes → Option Bytes
fix_fram_test t = do
  t2 ← must_replace t Needles.map_query Needles.map_query_layout
  must_replace t2 Needles.map_assert Needles.map_assert_layout

-- fix-fram-i2c-default.py
unfoldable pub fix_i2c_default : Bytes → Bytes
fix_i2c_default = replace_all (codes "\"/dev/i2c-1\"") (codes "\"/dev/i2c-2\"") 0
