-- ===== src/Tools/Model/Script.antt =====
-- The run of tools/patch-fram-v5-model.py, from the text of src/model.rs that it reads to the one that it writes. `is_digit` is
-- `\d`, which Python takes for every decimal digit of Unicode.
use radsat_linux.Base.{ℕ, Bool, [], ◌∷◌, if◌then◌else◌, ◌++◌, Option, none, some, Bytes, codes}
use radsat_linux.Base.Maybe.{◌>>=◌}
use radsat_linux.Tools.Text.{must_replace}
use radsat_linux.Tools.Tree.{after_first, behind}
use radsat_linux.Tools.Services.{after}
use radsat_linux.Tools.Model.{edit_model}
use radsat_linux.Tools.Model.Keys
use radsat_linux.Tools.Model.Names
use radsat_linux.Tools.Model.State

module _ (is_digit : ℕ → Bool) where
  -- `\d*`, of which the text behind it is kept; a bracket follows, which is no digit
  unfoldable pub skip_digits : Bytes → Bytes
  skip_digits [] = []
  skip_digits (c ∷ s) = let rest = skip_digits s in if is_digit c then rest else c ∷ s

  -- `\d+`
  abbrev pub after_digits : Bytes → Option Bytes
  after_digits [] = none
  after_digits (c ∷ s) = if is_digit c then some (skip_digits s) else none

  -- a match of the regular expression at the front: the text behind it
  unfoldable pub match_keys : Bytes → Option Bytes
  match_keys s = do
    s2 ← after (codes "pub const MISSION_KEYS: [MissionKey; ") s
    s3 ← after_digits s2
    s4 ← after (codes "] = [") s3
    after_first (codes "];") s4

  -- `re.subn(..., count=1, flags=re.S)`; none where nothing is replaced
  unfoldable pub sub_keys : Bytes → Bytes → Option Bytes
  sub_keys new [] = none
  sub_keys new (c ∷ s) =
      let later = behind c (sub_keys new s) in
      elim (match_keys (c ∷ s)) [ none ↦ later | some rest ↦ some (new ++ rest) ]

  -- none where it leaves by a failed `assert` or by `SystemExit`
  unfoldable pub edit : Bytes → Option Bytes
  edit text = do
    t2 ← sub_keys Keys.mission_keys_new text
    t3 ← edit_model Keys.enum_new Names.id_new Names.env_new Names.decl_new t2
    t4 ← must_replace t3 State.old_struct State.new_struct
    must_replace t4 State.needle State.insert
