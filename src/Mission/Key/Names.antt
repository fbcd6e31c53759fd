-- ===== src/Mission/Key/Names.antt =====
-- The environment names: no two keys share one, and none is a name that must not come from FRAM.
use radsat_linux.Base.{
  ◌≡◌, refl, sym, ap, ◌∙◌, false, List, [], ◌∷◌, Option, none, some, Bytes, bytes_eq, if◌then◌else◌,
}
use radsat_linux.Mission.Key.{
  MissionKey, remove_before_flight, mission_keys, env_name, is_forbidden_boot_env_name,
}

key_named : Bytes → List MissionKey → Option MissionKey
key_named s [] = none
key_named s (k ∷ ks) = if bytes_eq s (env_name k) then some k else key_named s ks

key_named-env_name : (k : MissionKey) → key_named (env_name k) mission_keys ≡ some k
unfolding key_named env_name
key_named-env_name remove_before_flight = refl
key_named-env_name _ = refl

some_key_eq : (k j : MissionKey) → some k ≡ some j → k ≡ j
some_key_eq k j e = cc

-- Different keys have different environment names.
pub env_name_injective : (k j : MissionKey) → env_name k ≡ env_name j → k ≡ j
env_name_injective k j e = some_key_eq k j (
    sym (key_named-env_name k)
    ∙ ap (λ (s : Bytes). key_named s mission_keys) e
    ∙ key_named-env_name j)

-- No mission key's environment name is one of the boot variables that must never come from FRAM.
pub env_name-not_forbidden : (k : MissionKey) → is_forbidden_boot_env_name (env_name k) ≡ false
unfolding env_name is_forbidden_boot_env_name
env_name-not_forbidden remove_before_flight = refl
env_name-not_forbidden _ = refl
