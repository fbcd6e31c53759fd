-- ===== src/Tests/Mission.antt =====
-- The mission keys, at single keys.
use radsat_linux.Base.{
  ℕ, ◌≡◌, refl, true, ◌&&◌, none, some, leb, if◌then◌else◌, Bool, false, List, [], ◌∷◌, Option,
  Bytes, codes, bytes_eq, bytes_eq→≡, ◌≢◌, Bool-cases, inl, inr,
}
use radsat_linux.Fram.Record.{fram_keys}
use radsat_linux.Fram.Overlay.Policy.{fram_key_with, vtype_code, fram_keys-MissionKey}
use radsat_linux.Mission.Key
use radsat_linux.Mission.Key.{
  MissionKey, deployed, fsoo_timer, total_boot_fails, emmc_restore_offset, env_name,
  declared_value_type, is_forbidden_boot_env_name, is_recovery_key,
}
use radsat_linux.Mission.Key.Numbering.{id_injective, is_recovery_key_iff}
use radsat_linux.Mission.Key.Versions.{id_v3}
use radsat_linux.Base.Int.{pos}
use radsat_linux.Base.Result.{ok}
use radsat_linux.Mission.State
use radsat_linux.Mission.State.{MissionValue, bool, MissionState}
use radsat_linux.Mission.State.Refines.{fields, set_all, assign_all, set_all-refines}
use radsat_linux.Mission.Env
use radsat_linux.Mission.Env.{Writer}
use radsat_linux.Mission.Env.Forbidden.{write_all, write_all-forbidden}

fram_keys-MissionKey_example :
    if leb (Key.id fsoo_timer) 6
    then ((t : ℕ) × (vtype_code (declared_value_type fsoo_timer) ≡ some t)
        × (fram_key_with (Key.id fsoo_timer) fram_keys
            ≡ some (record { id = Key.id fsoo_timer; name = env_name fsoo_timer; vtype = t })))
    else fram_key_with (Key.id fsoo_timer) fram_keys ≡ none
fram_keys-MissionKey_example = fram_keys-MissionKey fsoo_timer

id_injective_example : deployed ≡ deployed
id_injective_example = id_injective deployed deployed refl

is_recovery_key_example :
    is_recovery_key total_boot_fails
    ≡ (leb 8 (Key.id total_boot_fails) && leb (Key.id total_boot_fails) 14)
is_recovery_key_example = is_recovery_key_iff total_boot_fails

fsoo_timer_v3 : id_v3 fsoo_timer ≡ some 5
unfolding id_v3
fsoo_timer_v3 = refl

-- arms that change nothing
abbrev other : MissionState Bool → MissionKey → MissionValue Bool → MissionState Bool
other s k v = s

abbrev blank_state : MissionState Bool
blank_state = record {
  boot_checksum = pos 0;
  total_boot_fails = pos 0;
  emmc_recovery_needed = false;
  emmc_recovery_attempts = pos 0;
  sd_restore_slot = pos 0;
  last_emmc_probe_ok = false;
  boot_media = pos 0;
  boot_image_id = pos 0;
  emmc_restore_offset = pos 0;
  adcs_commissioning_logged = false;
  rest = true;
}

abbrev updates : List (MissionKey × MissionValue Bool)
updates =
    (total_boot_fails, State.u64 3)
    ∷ (total_boot_fails, bool true)
    ∷ (deployed, bool true)
    ∷ (emmc_restore_offset, State.u64 18446744073709551615)
    ∷ []

set_all-refines_example :
    fields (set_all other updates blank_state) ≡ assign_all updates (fields blank_state)
set_all-refines_example = set_all-refines other (λ s k v. refl) updates blank_state

-- an environment that is a function from names
abbrev store : Writer (Bytes → Option Bytes)
store env name value = (ok tt, λ x. if bytes_eq name x then value else env x)

store_one_name :
    (env : Bytes → Option Bytes) (name x : Bytes) (value : Option Bytes)
    → name ≢ x
    → (store env name value).1 x ≡ env x
store_one_name env name x value h = elim (Bool-cases (bytes_eq name x)) [
  | inl same ↦ absurd (h (bytes_eq→≡ name x same))
  | inr differs ↦ rw differs refl
]

bootcmd_forbidden : is_forbidden_boot_env_name (codes "bootcmd") ≡ true
unfolding is_forbidden_boot_env_name
bootcmd_forbidden = refl

write_all-forbidden_example :
    (write_all store
        (λ env. env)
        ((codes "bootcmd", none) ∷ (codes "deployed", some (codes "true")) ∷ [])
        (λ x. some (codes "run mmcboot"))
        (codes "bootcmd")
      ≡ some (codes "run mmcboot"))
    × ((t : Bytes → Option Bytes) (k : MissionKey) (value : Option Bytes)
        → Env.write store t (env_name k) value ≡ store t (env_name k) value)
write_all-forbidden_example =
    write_all-forbidden store (λ env. env) store_one_name
      ((codes "bootcmd", none) ∷ (codes "deployed", some (codes "true")) ∷ [])
      (λ x. some (codes "run mmcboot")) (codes "bootcmd") bootcmd_forbidden
