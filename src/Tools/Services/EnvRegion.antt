-- ===== src/Tools/Services/EnvRegion.antt =====
-- `main` of tools/apply-mram-env-region.py: the edits of the files of mram-service and of its Buildroot package. A function
-- of the script writes its file when all its edits have gone through, and `SystemExit` ends the run. The new files that it
-- also writes are programs of their own: Mram.Region, Mram.Subsystem, Mram.Sync and Mram.Startup.
use radsat_linux.Base.{
  Bool, true, false, ◌&&◌, ◌++◌, Option, none, some, Bytes, codes, if◌then◌else◌,
}
use radsat_linux.Base.Maybe.{◌>>=◌}
use radsat_linux.Tools.Text.{occurs_in, must_replace}
use radsat_linux.Tools.Tree.{replace_all, unless}
use radsat_linux.Tools.Whitelist.Main.{rstrip}
use radsat_linux.Tools.Services.Needles
use radsat_linux.Tools.Services.Blocks

-- the files that are edited, none for one that need not be there and is not
pub record Service : Type 0 where
  pub lib_rs : Bytes
  pub fs_rs : Bytes
  pub schema_rs : Bytes
  pub config_toml : Bytes
  pub readme : Option Bytes
  pub cargo_toml : Bytes
  pub kubos_mram_mk : Bytes
  pub graphql_rs : Option Bytes

abbrev pub map_file : (Bytes → Bytes) → Option Bytes → Option Bytes
map_file edit none = none
map_file edit (some t) = some (edit t)

unfoldable pub patch_lib : Bytes → Bytes
patch_lib = unless (codes "env_region") λ t. rstrip t ++ codes "\npub mod env_region;\n"

unfoldable pub patch_fs_capacity : Bytes → Option Bytes
patch_fs_capacity t = do
  t2 ← must_replace t Blocks.mount_device Blocks.mount_payload
  some (
      replace_all Blocks.file_backend Blocks.file_payload 0
        (replace_all Blocks.memory_backend Blocks.memory_payload 0 t2))

unfoldable pub patch_schema : Bytes → Option Bytes
patch_schema t =
    if occurs_in (codes "env_region") t && occurs_in (codes "EnvRegion") t
    then some t
    else must_replace t Blocks.storage_type Blocks.region_type >>= λ t2.
        must_replace t2 Blocks.storage_query Blocks.region_query

unfoldable pub patch_config : Bytes → Bytes
patch_config = unless (codes "env_offset") (replace_all Needles.capacity_line Blocks.config_lines 0)

unfoldable pub patch_readme : Bytes → Bytes
patch_readme = unless (codes "U-Boot env") λ t. t ++ Blocks.readme_section

-- the end of write_sync_bin
unfoldable pub patch_cargo : Bytes → Bytes
patch_cargo = unless (codes "mram-env-sync") λ t. t ++ Blocks.cargo_bins

-- the end of write_s79_and_package
unfoldable pub patch_package : Bytes → Option Bytes
patch_package t =
    if occurs_in (codes "mram-env-sync") t
    then some t
    else must_replace t Blocks.install_service Blocks.install_sync >>= λ t2.
        must_replace t2 Blocks.fragment Blocks.fragment_env

-- tests/graphql.rs
unfoldable pub fix_tests : Bytes → Bytes
fix_tests = unless (codes "env_offset") (replace_all Needles.capacity_line Needles.capacity_lines 0)

-- what a run leaves, and whether it got to its end
abbrev with_package : Service → Option Bytes → Service × Bool
with_package s none = (s, false)
with_package s (some mk) =
    (record s { kubos_mram_mk = mk; graphql_rs = map_file fix_tests s.graphql_rs }, true)

abbrev with_schema : Service → Option Bytes → Service × Bool
with_schema s none = (s, false)
with_schema s (some schema) =
    let next = record s {
      schema_rs = schema;
      config_toml = patch_config s.config_toml;
      readme = map_file patch_readme s.readme;
      cargo_toml = patch_cargo s.cargo_toml;
    } in
    with_package next (patch_package s.kubos_mram_mk)

abbrev with_fs : Service → Option Bytes → Service × Bool
with_fs s none = (s, false)
with_fs s (some fs) = with_schema (record s { fs_rs = fs }) (patch_schema s.schema_rs)

unfoldable pub main : Service → Service × Bool
main s = with_fs (record s { lib_rs = patch_lib s.lib_rs }) (patch_fs_capacity s.fs_rs)
