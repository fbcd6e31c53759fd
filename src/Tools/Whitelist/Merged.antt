-- ===== src/Tools/Whitelist/Merged.antt =====
-- The merged whitelist is sorted and holds the old names and the new ones.
use radsat_linux.Base.{◌≡◌, true, List, [], ◌∷◌, Bytes, All}
use radsat_linux.Tools.Whitelist.{lt_text}

abbrev Above : Bytes → Bytes → Type 0
Above x y = lt_text x y ≡ true

-- strictly increasing
abbrev pub IsSorted : List Bytes → Type 0
IsSorted [] = Unit
IsSorted (x ∷ xs) = All (Above x) xs × IsSorted xs
