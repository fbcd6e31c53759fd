-- ===== src/Tools/Recovery.antt =====
-- tools/apply-fram-layout-v4.py: its edits of src/layout.rs and src/model.rs of fram-service, which put the recovery keys behind
-- the boot policy, as text. Mission.Key, Mission.Key.Versions and Mission.State model what the text that it puts in does.
pub mod Keys
pub mod State
use radsat_linux.Base.{Option, none, some, Bytes, codes}
use radsat_linux.Base.Maybe.{◌>>=◌}
use radsat_linux.Tools.Text.{must_replace}
use radsat_linux.Tools.Tree.{replace_all, sub_between}
use radsat_linux.Tools.Recovery.Keys
use radsat_linux.Tools.Recovery.State

unfoldable pub edit_layout : Bytes → Bytes
edit_layout t =
    replace_all (codes "pub const LAYOUT_VERSION: u16 = 3;")
      (codes "pub const LAYOUT_VERSION: u16 = 4;") 0
      (replace_all (codes "pub const RESERVED_KEYS: u32 = 32;")
        (codes "pub const RESERVED_KEYS: u32 = 40;") 0 t)

-- none where it leaves by `SystemExit`
unfoldable pub edit_model : Bytes → Option Bytes
edit_model text = do
  t2 ←
      sub_between (codes "pub const MISSION_KEYS: [MissionKey; 32] = [") (codes "];")
        Keys.keys_array text
  t3 ← must_replace t2 Keys.enum_v3 Keys.enum_v4
  t4 ← must_replace t3 Keys.ids_v3 Keys.ids_v4
  t5 ← must_replace t4 State.names_v3 State.names_v4
  t6 ← must_replace t5 State.types_v3 State.types_v4
  t7 ← must_replace t6 State.fields_v3 State.fields_v4
  t8 ← must_replace t7 State.arms_v3 State.arms_v4
  must_replace t8 State.boot_v3 State.boot_v4

-- src/layout.rs, which is written first, and src/model.rs where it is written
unfoldable pub main : Bytes → Bytes → Bytes × Option Bytes
main layout model = (edit_layout layout, edit_model model)
