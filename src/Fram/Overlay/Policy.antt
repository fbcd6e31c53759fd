-- ===== src/Fram/Overlay/Policy.antt =====
-- The anti-brick rule: the overlay sets boot-policy variables and nothing else.
use radsat_linux.Base.{
  ℕ, ◌≡◌, refl, Bool, true, false, List, [], ◌∷◌, Option, none, some, Bytes, arith, All, All-append,
  Bool-cases, inl, inr, leb, if◌then◌else◌, ◌==◌, ◌⊎◌,
}
use radsat_linux.Mission.Key
use radsat_linux.Mission.Key.{
  MissionKey, ValueType, env_name, declared_value_type, is_forbidden_boot_env_name,
  remove_before_flight,
}
use radsat_linux.Mission.Key.Names.{env_name-not_forbidden}
use radsat_linux.Fram.Record.{FramKey, fram_keys}
use radsat_linux.Fram.Overlay.{
  Event, set_bus, setenv, puts, overlay_key, overlay_keys, radsat_fram_overlay_env,
  fram_layout_present_invalid, fram_boot_crc_ok,
}

-- the `vtype` comment of `struct fram_key`; the overlay has no code for byte strings
abbrev pub vtype_code : ValueType → Option ℕ
vtype_code ValueType.boolean = some 1
vtype_code ValueType.timestamp = some 2
vtype_code ValueType.u64 = some 3
vtype_code ValueType.bytes = none

pub fram_key_with : ℕ → List FramKey → Option FramKey
fram_key_with i [] = none
fram_key_with i (k ∷ ks) = if i == k.id then some k else fram_key_with i ks

-- U-Boot's table and the Rust enum agree: a mission key is in `fram_keys` exactly if its id is at most
-- 6, and then its entry has the key's id, its environment name and the code of its value type.
pub fram_keys-MissionKey :
    (k : MissionKey)
    → if leb (Key.id k) 6
      then ((t : ℕ) × (vtype_code (declared_value_type k) ≡ some t)
          × (fram_key_with (Key.id k) fram_keys
              ≡ some (record { id = Key.id k; name = env_name k; vtype = t })))
      else fram_key_with (Key.id k) fram_keys ≡ none
unfolding Key.id env_name declared_value_type fram_key_with
fram_keys-MissionKey remove_before_flight = (1, refl, refl)
fram_keys-MissionKey MissionKey.deployed = (1, refl, refl)
fram_keys-MissionKey MissionKey.deploy_start = (2, refl, refl)
fram_keys-MissionKey MissionKey.initial_safe_state_complete = (1, refl, refl)
fram_keys-MissionKey MissionKey.fsoo_timer = (3, refl, refl)
fram_keys-MissionKey MissionKey.detumbling_complete = (1, refl, refl)
fram_keys-MissionKey _ = refl

-- A name that may be set: the environment name of a boot-policy key (id at most 6), none of the
-- variables that must not come from FRAM.
abbrev pub Allowlisted : Bytes → Type 0
Allowlisted name =
    (k : MissionKey) × (env_name k ≡ name)
    × (leb (Key.id k) 6 ≡ true)
    × (is_forbidden_boot_env_name name ≡ false)

abbrev pub Allowed : Event → Type 0
Allowed (setenv name value) = Allowlisted name
Allowed (set_bus n) = Unit
Allowed (puts s) = Unit

from_key : (k : MissionKey) → leb (Key.id k) 6 ≡ true → Allowlisted (env_name k)
from_key k e = (k, refl, e, env_name-not_forbidden k)

fram_keys-Allowlisted : All (λ key. Allowlisted key.name) fram_keys
unfolding Key.id env_name
fram_keys-Allowlisted = (
  from_key remove_before_flight refl,
  (
    from_key MissionKey.deployed refl,
    (
      from_key MissionKey.deploy_start refl,
      (
        from_key MissionKey.initial_safe_state_complete refl,
        (from_key MissionKey.fsoo_timer refl, (from_key MissionKey.detumbling_complete refl, tt)),
      ),
    ),
  ),
)

module _ (i2c_read : ℕ → ℕ → ℕ → ℕ → Option Bytes) where
  -- a round of the loop sets the key's own variable, or nothing
  pub overlay_key-cases :
      (key : FramKey)
      → (overlay_key i2c_read key ≡ [])
        ⊎ ((v : Option Bytes) × (overlay_key i2c_read key ≡ setenv key.name v ∷ []))
  unfolding overlay_key
  overlay_key-cases key = ground arith

  overlay_key-Allowed :
      (key : FramKey) → Allowlisted key.name → All Allowed (overlay_key i2c_read key)
  overlay_key-Allowed key h = elim (overlay_key-cases key) [
    | inl nothing ↦ rw nothing tt
    | inr (v, sets) ↦ rw sets (h, tt)
  ]

  overlay_keys-Allowed :
      (ks : List FramKey)
      → All (λ key. Allowlisted key.name) ks
      → All Allowed (overlay_keys i2c_read ks)
  unfolding overlay_keys
  overlay_keys-Allowed [] _ = tt
  overlay_keys-Allowed (k ∷ ks) (h, hs) =
      All-append Allowed (overlay_key i2c_read k) (overlay_keys i2c_read ks)
        (overlay_key-Allowed k h) (overlay_keys-Allowed ks hs)

  -- Whatever the FRAM holds and however the bus behaves, every variable that the overlay sets is the
  -- environment name of a boot-policy key, and never one of the forbidden boot variables.
  pub overlay_env-Allowed :
      (set_bus_ok : ℕ → Bool) (old_bus : ℕ)
      → All Allowed (radsat_fram_overlay_env i2c_read set_bus_ok old_bus)
  unfolding radsat_fram_overlay_env
  overlay_env-Allowed set_bus_ok old_bus = elim (Bool-cases (set_bus_ok 2)) [
    | inr bus_bad ↦ rw bus_bad (tt, (tt, tt))
    | inl bus_ok ↦ rw bus_ok (elim (Bool-cases (fram_layout_present_invalid i2c_read)) [
      | inl invalid ↦ rw invalid (tt, (tt, (tt, tt)))
      | inr valid ↦ rw valid (elim (Bool-cases (fram_boot_crc_ok i2c_read)) [
        | inr crc_bad ↦ rw crc_bad (tt, (tt, (tt, tt)))
        | inl crc_ok ↦ rw crc_ok (
          tt,
          All-append Allowed (overlay_keys i2c_read fram_keys)
              (puts "FRAM: mission policy keys overlaid\n" ∷ set_bus old_bus ∷ [])
              (overlay_keys-Allowed fram_keys fram_keys-Allowlisted) (tt, (tt, tt)),
        )
      ])
    ])
  ]
