-- ===== src/Tools/Whitelist/Append.antt =====
-- `main` of tools/fix-uboot-whitelist.py, the script before fix-uboot-whitelist-sorted.py: it appends the names. The runs of
-- tar, patch and diff are arguments, as in Tools/Whitelist/Main.
pub mod Again
use radsat_linux.Base.{
  Bool, true, false, ◌&&◌, List, [], ◌∷◌, ◌++◌, Option, none, some, Bytes, codes, if◌then◌else◌,
}
use radsat_linux.Tools.Text.{occurs_in, splitlines}
use radsat_linux.Tools.Whitelist.{new_names}
use radsat_linux.Tools.Whitelist.Main.{rstrip, hunk}

-- `"".join(f"{n}\n" for n in NEW if n not in cur)`, `in` being that of texts
unfoldable pub added : List Bytes → Bytes → Bytes
added [] cur = []
added (n ∷ names) cur =
    let rest = added names cur in if occurs_in n cur then rest else n ++ (codes "\n" ++ rest)

-- the assertions at the end
unfoldable pub all_occur : List Bytes → Bytes → Bool
all_occur [] whitelist = true
all_occur (n ∷ names) whitelist = occurs_in n whitelist && all_occur names whitelist

unfoldable pub names_occur : Option Bytes → Bool
names_occur none = false
names_occur (some whitelist) = all_occur new_names whitelist

module _ (apply apply_all : Bytes → Option Bytes) (diff : Bytes → Bytes → Bytes) where
  -- the contents of the patch file when the script ends, and whether it goes through
  unfoldable pub append_hunk : Bytes → Option Bytes → Bytes × Bool
  append_hunk text none = (text, false)
  append_hunk text (some part) =
      let patched = rstrip text ++ (codes "\n" ++ part) in
      (patched, names_occur (apply_all patched))

  unfoldable pub append_names : Bytes → Bytes → Bytes → Bytes × Bool
  append_names text cur [] = (text, true)
  append_names text cur (c ∷ add) =
      append_hunk text (hunk (splitlines (diff cur (rstrip cur ++ (codes "\n" ++ c ∷ add)))))

  unfoldable pub extend : Bytes → Option Bytes → Bytes × Bool
  extend text none = (text, false)
  extend text (some cur) = append_names text cur (added new_names cur)

  unfoldable pub main : Bytes → Bytes × Bool
  main text =
      if occurs_in (codes "config_whitelist.txt") text
      then (text, true)
      else extend text (apply text)
