-- ===== src/Mission/Env.antt =====
-- The guard that tools/apply-mram-fram-plan2.py puts into both writers of the U-Boot environment in fram-service's src/env.rs:
-- `write` of the one that runs fw_setenv and of the one in memory. The rest of a writer is the argument `inner`.
pub mod Forbidden
use radsat_linux.Base.{Bool, List, [], ◌∷◌, ◌++◌, Option, Bytes, codes, if◌then◌else◌}
use radsat_linux.Base.Result.{Result, ok, err}
use radsat_linux.Mission.Key.{is_forbidden_boot_env_name}

-- a writer: a name, and a value or none for a removal
abbrev pub Writer : Type 0 → Type 0
Writer S = S → Bytes → Option Bytes → Result Bytes (Unit {0}) × S

abbrev pub refusing : Bytes → Bytes
refusing name =
    codes "refusing to mirror forbidden boot env name `" ++ (name ++ codes "` from FRAM")

unfoldable pub write : {S : Type 0} → Writer S → Writer S
write inner s name value =
    if is_forbidden_boot_env_name name then (err (refusing name), s) else inner s name value
