-- ===== src/Tools/Plan/Second.antt =====
-- tools/apply-mram-fram-plan2.py: its edits of the sources of both services, as text. The scripts that it also writes are
-- Fram.Helpers, and the window that it appends is Mram.Window.
pub mod Needles
pub mod Window
pub mod Guarded
pub mod Variant
use radsat_linux.Base.{
  Bool, true, false, not, ◌&&◌, ◌||◌, List, [], ◌∷◌, ◌++◌, Option, none, some, Bytes, codes,
  if◌then◌else◌,
}
use radsat_linux.Base.Maybe.{◌>>=◌}
use radsat_linux.Tools.Text.{occurs_in, replace_first, must_replace}
use radsat_linux.Tools.Tree.{replace_all, after_first}
use radsat_linux.Tools.Whitelist.Main.{before_first}
use radsat_linux.Tools.Plan.{Services}
use radsat_linux.Tools.Plan.Second.Needles
use radsat_linux.Tools.Plan.Second.Window.{window}

unfoldable pub patch_fram_subsystem : Bytes → Option Bytes
patch_fram_subsystem t = must_replace t Needles.mount_line Needles.mount_lines

-- the import and the guard in both writers
unfoldable pub put_guards : Bytes → Option Bytes
put_guards t = do
  t2 ← must_replace t Needles.env_imports Needles.env_imports_model
  t3 ← must_replace t2 Needles.command_write Needles.command_guarded
  must_replace t3 Needles.memory_write Needles.memory_guarded

unfoldable pub patch_fram_env : Bytes → Option Bytes
patch_fram_env t = if occurs_in (codes "is_forbidden_boot_env_name") t then some t else put_guards t

-- `s.split(sep, 1)[1]` of a text in which `sep` occurs
abbrev pub behind_first : Bytes → Bytes → Bytes
behind_first sep s = elim (after_first sep s) [ none ↦ [] | some rest ↦ rest ]

abbrev pub writing : Bytes
writing = codes "### Writing"

-- the new section in front of the marker, for a text that has drifted
unfoldable pub drifted_flow : Bytes
drifted_flow =
    before_first writing Needles.boot_flow_mram
    ++ writing
    ++ before_first (codes "### Per-flag") (behind_first writing Needles.boot_flow_mram)
    ++ codes "### Per-flag GraphQL\n"

unfoldable pub patch_flow : Bytes → Bytes
patch_flow t =
    let marker = codes "### Per-flag GraphQL\n" in
    if occurs_in Needles.boot_flow t
    then replace_first Needles.boot_flow Needles.boot_flow_mram t
    else if occurs_in marker t && not (occurs_in (codes "Writing FRAM variables") t)
    then replace_first marker drifted_flow t
    else t

unfoldable pub patch_fram_readme : Bytes → Bytes
patch_fram_readme t = replace_all Needles.top_of_fram Needles.policy_keys 0 (patch_flow t)

-- `text.split("enum BackendError")[1].split("}")[0]`, where "enum BackendError" occurs
unfoldable pub enum_part : Bytes → Option Bytes
enum_part t = elim (after_first (codes "enum BackendError") t) [
  | none ↦ none
  | some rest ↦ some (before_first (codes "}") (before_first (codes "enum BackendError") rest))
]

-- what backend.rs holds in the end, and whether the edit goes through
abbrev pub with_invalid : Bytes → Option Bytes → Bytes × Bool
with_invalid t none = (t, false)
with_invalid t (some t2) = (t2, true)

abbrev pub add_invalid : Bytes → Option Bytes → Bytes × Bool
add_invalid t none = (t, false)
add_invalid t (some part) =
    if occurs_in (codes "InvalidConfig") part
    then (t, true)
    else with_invalid t (must_replace t Needles.enum_head Needles.enum_invalid)

unfoldable pub patch_mram_backend_window : Bytes → Bytes × Bool
patch_mram_backend_window t =
    if occurs_in (codes "struct PayloadWindow") t || occurs_in (codes "PayloadWindowBackend") t
    then (t, true)
    else add_invalid (t ++ window) (enum_part (t ++ window))

-- what a run leaves, and whether it got to its end
abbrev pub with_env : Services → Option Bytes → Services × Bool
with_env s none = (s, false)
with_env s (some t) =
    let (backend, done) = patch_mram_backend_window s.backend_rs in
    (record s { env_rs = t; readme_md = patch_fram_readme s.readme_md; backend_rs = backend }, done)

abbrev pub with_subsystem : Services → Option Bytes → Services × Bool
with_subsystem s none = (s, false)
with_subsystem s (some t) = with_env (record s { subsystem_rs = t }) (patch_fram_env s.env_rs)

unfoldable pub main : Services → Services × Bool
main s = with_subsystem s (patch_fram_subsystem s.subsystem_rs)
