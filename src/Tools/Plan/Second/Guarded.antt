-- ===== src/Tools/Plan/Second/Guarded.antt =====
-- What a run of tools/apply-mram-fram-plan2.py that gets to its end has put in.
use radsat_linux.Base.{◌≡◌, true, ◌++◌, ◌⊎◌, Bytes, codes}
use radsat_linux.Tools.Text.{occurs_in}
use radsat_linux.Tools.Text.Replace.{First}
use radsat_linux.Tools.Plan.Second.Needles
use radsat_linux.Tools.Plan.Second.Window.{window}

-- an edit that goes through: what is in front of the needle and behind it
-- the first occurrence of `old` in `t` is exchanged for `new`
abbrev pub Replaced : Bytes → Bytes → Bytes → Bytes → Type 0
Replaced old new t r =
    (pre : Bytes) × (post : Bytes) × (t ≡ pre ++ old ++ post)
    × (r ≡ pre ++ new ++ post)
    × First old t pre

abbrev pub mark : Bytes
mark = codes "PayloadWindow"

-- fram-service/src/env.rs: nothing for a file that names the guard, else the import, and the guard in both writers
abbrev pub IsEnvGuarded : Bytes → Bytes → Type 0
IsEnvGuarded t r =
    ((occurs_in (codes "is_forbidden_boot_env_name") t ≡ true) × (r ≡ t))
    ⊎ ((t2 : Bytes) × (t3 : Bytes) × Replaced Needles.env_imports Needles.env_imports_model t t2
        × Replaced Needles.command_write Needles.command_guarded t2 t3
        × Replaced Needles.memory_write Needles.memory_guarded t3 r)

-- mram-service/src/backend.rs: nothing for a file that names the window, else the window at its end and, at most, a variant more
abbrev pub HasWindow : Bytes → Bytes → Type 0
HasWindow t r =
    ((occurs_in mark t ≡ true) × (r ≡ t))
    ⊎ ((r ≡ t ++ window) ⊎ Replaced Needles.enum_head Needles.enum_invalid (t ++ window) r)
