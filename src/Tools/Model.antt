-- ===== src/Tools/Model.antt =====
-- The edits of fram-service's src/model.rs by tools/patch-fram-v5-model.py that end at a closing brace. The new texts
-- are arguments; a run that leaves by a failed `assert` gives none.
pub mod Leftover
pub mod Keys
pub mod Names
pub mod State
pub mod Script
use radsat_linux.Base.{Option, none, some, Bytes, codes}
use radsat_linux.Tools.Tree.{sub_between}

unfoldable pub edit_enum : Bytes → Bytes → Option Bytes
edit_enum enum_new text = sub_between (codes "pub enum MissionKey {") (codes "}") enum_new text

unfoldable pub edit_id : Bytes → Bytes → Option Bytes
edit_id id_new text = sub_between (codes "pub fn id(self) -> u8 {") (codes "}") id_new text

unfoldable pub edit_env_name : Bytes → Bytes → Option Bytes
edit_env_name env_new text =
    sub_between (codes "pub fn env_name(self) -> &'static str {") (codes "}") env_new text

unfoldable pub edit_value_type : Bytes → Bytes → Option Bytes
edit_value_type decl_new text =
    sub_between (codes "pub fn declared_value_type(self) -> ValueType {") (codes "}") decl_new text

abbrev pub then_edit : Option Bytes → (Bytes → Option Bytes) → Option Bytes
then_edit none edit = none
then_edit (some text) edit = edit text

-- the four in the script's order
unfoldable pub edit_model : Bytes → Bytes → Bytes → Bytes → Bytes → Option Bytes
edit_model enum_new id_new env_new decl_new text =
    then_edit
      (then_edit (then_edit (edit_enum enum_new text) (edit_id id_new)) (edit_env_name env_new))
      (edit_value_type decl_new)
