-- ===== src/Mission/Key/Numbering.antt =====
-- The ids number the keys from 1 in storage order, so that a key's slots can be found from its id.
use Prim.Native.Nat.{zero, suc}
use radsat_linux.Base.{
  ℕ, ◌+◌, ◌-◌, ◌≤◌, ◌≡◌, refl, sym, ap, ◌∙◌, List, [], ◌∷◌, Option, none, some, map, arith, leb,
  ◌&&◌, length,
}
use radsat_linux.Mission.Key.{MissionKey, remove_before_flight, mission_keys, id, is_recovery_key}

-- the key at a position, from 0
pub key_at : List MissionKey → ℕ → Option MissionKey
key_at [] i = none
key_at (k ∷ ks) zero = some k
key_at (k ∷ ks) (suc i) = key_at ks i

-- first, first + 1, ..., as many as there are keys
abbrev numbered : ℕ → List MissionKey → List ℕ
numbered n [] = []
numbered n (k ∷ ks) = n ∷ numbered (n + 1) ks

-- `MISSION_KEYS` is a complete table of the enum: it has 40 entries, their ids are 1, 2, ..., 40 in
-- this order, and every key k stands at position id k - 1.
pub mission_keys_numbering :
    (length mission_keys ≡ 40)
    × (map id mission_keys ≡ numbered 1 mission_keys)
    × ((k : MissionKey) → key_at mission_keys (id k - 1) ≡ some k)
unfolding id key_at
mission_keys_numbering = (refl, refl, at)
  where
    at : (k : MissionKey) → key_at mission_keys (id k - 1) ≡ some k
    at remove_before_flight = refl
    at _ = refl

pub id_bounds : (k : MissionKey) → (1 ≤ id k) × (id k ≤ 40)
unfolding id
id_bounds remove_before_flight = omega arith
id_bounds _ = omega arith

some_key_eq : (k j : MissionKey) → some k ≡ some j → k ≡ j
some_key_eq k j e = cc

-- Different keys have different ids.
pub id_injective : (k j : MissionKey) → id k ≡ id j → k ≡ j
id_injective k j e = some_key_eq k j (
    sym (mission_keys_numbering.2 k)
    ∙ ap (λ (n : ℕ). key_at mission_keys (n - 1)) e
    ∙ mission_keys_numbering.2 j)

-- A key is a recovery key exactly if its id lies in the block 8 to 14 behind the boot keys.
pub is_recovery_key_iff : (k : MissionKey) → is_recovery_key k ≡ (leb 8 (id k) && leb (id k) 14)
unfolding id is_recovery_key
is_recovery_key_iff remove_before_flight = refl
is_recovery_key_iff _ = refl
