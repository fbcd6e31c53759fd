-- ===== src/Tools/Model/Leftover.antt =====
-- What the edits leave of the old functions.
use radsat_linux.Base.{
  ℕ, ◌≡◌, refl, Bool, true, not, ◌&&◌, [], ◌∷◌, ◌++◌, some, Bytes, codes, ◌==◌, arith, length, drop,
}
use radsat_linux.Tools.Text.{starts_with}
use radsat_linux.Tools.Text.Replace.{starts_with-append}
use radsat_linux.Tools.Tree.{after_first, sub_between}
use radsat_linux.Tools.Model.{edit_id, edit_env_name, edit_value_type}

-- no closing brace stands in the text
unfoldable pub no_brace : Bytes → Bool
no_brace [] = true
no_brace (c ∷ s) = not (c == b'}') && no_brace s

after_brace :
    (arms rest : Bytes)
    → no_brace arms ≡ true
    → after_first (codes "}") (arms ++ b'}' ∷ rest) ≡ some rest
unfolding no_brace after_first starts_with
after_brace [] rest h = refl
after_brace (c ∷ arms) rest h = ground (arith, after_brace arms rest)

drop-length : (s t : Bytes) → drop (length s) (s ++ t) ≡ t
drop-length [] t = refl
drop-length (c ∷ s) t = drop-length s t

up_to_brace :
    (c : ℕ) (start arms rest new : Bytes)
    → no_brace arms ≡ true
    → sub_between (c ∷ start) (codes "}") new ((c ∷ start) ++ (arms ++ b'}' ∷ rest))
      ≡ some (new ++ rest)
unfolding sub_between
up_to_brace c start arms rest new h =
    rw
      (
        starts_with-append (c ∷ start) (arms ++ b'}' ∷ rest),
        drop-length start (arms ++ b'}' ∷ rest),
        after_brace arms rest h,
        sub_between,
      )
      refl

-- The three functions end with two braces, that of `match self` and their own, and the new texts have both. Yet each of
-- the edits, on a function whose arms have no brace, puts the new text in place of the old one up to the first
-- brace only: the old function's own brace is still there, behind the new function.
pub edit_id_leftover :
    (arms new rest : Bytes)
    → no_brace arms ≡ true
    → (edit_id new (codes "pub fn id(self) -> u8 {" ++ (arms ++ (codes "}\n    }" ++ rest)))
        ≡ some (new ++ (codes "\n    }" ++ rest)))
      × (edit_env_name new (
            codes "pub fn env_name(self) -> &'static str {" ++ (arms ++ (codes "}\n    }" ++ rest)))
          ≡ some (new ++ (codes "\n    }" ++ rest)))
      × (edit_value_type new (
            codes "pub fn declared_value_type(self) -> ValueType {"
            ++ (arms ++ (codes "}\n    }" ++ rest)))
          ≡ some (new ++ (codes "\n    }" ++ rest)))
unfolding edit_id edit_env_name edit_value_type
edit_id_leftover arms new rest h = (
  up_to_brace _ _ arms (codes "\n    }" ++ rest) new h,
  up_to_brace _ _ arms (codes "\n    }" ++ rest) new h,
  up_to_brace _ _ arms (codes "\n    }" ++ rest) new h,
)
