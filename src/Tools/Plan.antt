-- ===== src/Tools/Plan.antt =====
-- tools/apply-mram-fram-plan.py: its edits of the sources of fram-service, as text. Mission.Key and Fram.Header model what the
-- text that it puts in does. A function gives what its file holds in the end, none where it leaves by `SystemExit`, which
-- comes before the file is written.
pub mod Layout
pub mod Model
pub mod Second
pub mod Kept
use radsat_linux.Base.{
  Bool, true, false, not, ◌&&◌, ◌||◌, ◌==◌, List, [], ◌∷◌, Option, none, some, Bytes, codes,
  if◌then◌else◌, length, drop,
}
use radsat_linux.Base.Maybe.{◌>>=◌}
use radsat_linux.Tools.Text.{starts_with, occurs_in, must_replace}
use radsat_linux.Tools.Tree.{replace_all}
use radsat_linux.Tools.Plan.Layout
use radsat_linux.Tools.Plan.Model

-- the files of fram-service that this script and the next one edit, and src/backend.rs of mram-service
pub record Services : Type 0 where
  pub layout_rs : Bytes
  pub model_rs : Bytes
  pub schema_rs : Bytes
  pub subsystem_rs : Bytes
  pub env_rs : Bytes
  pub readme_md : Bytes
  pub backend_rs : Bytes

unfoldable pub patch_fram_layout : Bytes → Option Bytes
patch_fram_layout t = do
  t2 ← must_replace t Layout.region_end Layout.header_consts
  t3 ← must_replace t2 Layout.verify_checksum Layout.header_methods
  t4 ← must_replace t3 Layout.map_without_header Layout.map_with_header
  must_replace t4 Layout.checksum_test Layout.header_test

unfoldable pub patch_fram_model : Bytes → Option Bytes
patch_fram_model t = do
  t2 ← must_replace t Model.mirrors_to_env Model.forbidden_names
  must_replace t2 Model.memory_map Model.memory_map_layout

unfoldable pub patch_fram_schema_mirror_default : Bytes → Bytes
patch_fram_schema_mirror_default =
    replace_all (codes "mirror_to_env.unwrap_or(true)") (codes "mirror_to_env.unwrap_or(false)") 0

-- `[^;]*;\n` at the front
unfoldable pub to_semicolon : Bytes → Bool
to_semicolon [] = false
to_semicolon (c ∷ s) =
    let rest = to_semicolon s in if c == b';' then starts_with (codes "\n") s else rest

-- `[^;]+;\n` at the front
unfoldable pub ends_statement : Bytes → Bool
ends_statement [] = false
ends_statement (c ∷ s) = not (c == b';') && to_semicolon s

abbrev pub let_mount : Bytes
let_mount = codes "let mut storage = FramStorage::mount("

-- whether `re.search` finds the statement
unfoldable pub has_mount : Bytes → Bool
has_mount [] = false
has_mount (c ∷ s) =
    (starts_with let_mount (c ∷ s) && ends_statement (drop (length let_mount) (c ∷ s)))
    || has_mount s

abbrev pub mount_call : Bytes
mount_call = codes "FramStorage::mount("

unfoldable pub patch_fram_subsystem_header : Bytes → Option Bytes
patch_fram_subsystem_header t =
    if occurs_in (codes "ensure_layout_header") t
    then some t
    else if has_mount t
    then some t
    else if not (occurs_in (codes "FramStorage::mount") t)
    then some t
    else must_replace t mount_call mount_call

abbrev pub use_model : Bytes
use_model = codes "use crate::model::"

unfoldable pub patch_fram_env_guard : Bytes → Option Bytes
patch_fram_env_guard t =
    if occurs_in (codes "is_forbidden_boot_env_name") t
    then some t
    else if occurs_in (codes "fw_setenv") t || occurs_in (codes "set_env") t
    then (if occurs_in use_model t && occurs_in (codes "MissionKey") t
        then must_replace t use_model use_model
        else some t)
    else some t

-- what a run leaves, and whether it got to its end
abbrev pub with_env : Services → Option Bytes → Services × Bool
with_env s none = (s, false)
with_env s (some t) = (record s { env_rs = t }, true)

abbrev pub with_subsystem : Services → Option Bytes → Services × Bool
with_subsystem s none = (s, false)
with_subsystem s (some t) = with_env (record s { subsystem_rs = t }) (patch_fram_env_guard s.env_rs)

abbrev pub with_model : Services → Option Bytes → Services × Bool
with_model s none = (s, false)
with_model s (some t) =
    with_subsystem
      (record s { model_rs = t; schema_rs = patch_fram_schema_mirror_default s.schema_rs })
      (patch_fram_subsystem_header s.subsystem_rs)

abbrev pub with_layout : Services → Option Bytes → Services × Bool
with_layout s none = (s, false)
with_layout s (some t) = with_model (record s { layout_rs = t }) (patch_fram_model s.model_rs)

unfoldable pub main : Services → Services × Bool
main s = with_layout s (patch_fram_layout s.layout_rs)
