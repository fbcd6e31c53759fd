-- ===== src/Tools/Text/Positions.antt =====
-- All places of a text in another one.
use radsat_linux.Base.{ℕ, suc, List, [], ◌∷◌, Bytes, if◌then◌else◌}
use radsat_linux.Tools.Text.{starts_with}

-- the positions, counted from `n` on, at which a marker stands
unfoldable pub positions : Bytes → ℕ → Bytes → List ℕ
positions marker n [] = if starts_with marker [] then n ∷ [] else []
positions marker n (c ∷ text) =
    let rest = positions marker (suc n) text in
    if starts_with marker (c ∷ text) then n ∷ rest else rest
