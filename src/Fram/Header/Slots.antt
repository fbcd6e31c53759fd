-- ===== src/Fram/Header/Slots.antt =====
-- Where the header and the mission keys' records lie.
use radsat_linux.Base.{ℕ, ◌+◌, ◌≤◌, ◌≡◌, ◌≢◌, ◌⊎◌, arith}
use radsat_linux.Fram.Record.{fram_record_size, slot_a_offset, slot_b_offset}
use radsat_linux.Fram.Header.{mission_region_end}
use radsat_linux.Mission.Key.{MissionKey, id}
use radsat_linux.Mission.Key.Numbering.{id_bounds, id_injective}

-- The two slots of a mission key lie one behind the other, below the header of the layout with 40
-- reserved keys; and of two keys, one has both its slots below those of the other.
pub slots_disjoint :
    (j k : MissionKey)
    → (slot_a_offset (id k) + fram_record_size ≡ slot_b_offset (id k))
      × (slot_b_offset (id k) + fram_record_size ≤ mission_region_end 40)
      × (j ≢ k
          → (slot_b_offset (id j) + fram_record_size ≤ slot_a_offset (id k))
            ⊎ (slot_b_offset (id k) + fram_record_size ≤ slot_a_offset (id j)))
slots_disjoint j k =
    let (j1, j2) = id_bounds j in
    let (k1, k2) = id_bounds k in
    (
      omega arith,
      omega arith,
      λ differ.
          let ids : id j ≢ id k = λ e. differ (id_injective j k e) in apart (id j) (id k) j1 k1 ids,
    )
  where
    apart :
        (a b : ℕ)
        → 1 ≤ a
        → 1 ≤ b
        → a ≢ b
        → (slot_b_offset a + fram_record_size ≤ slot_a_offset b)
          ⊎ (slot_b_offset b + fram_record_size ≤ slot_a_offset a)
    apart a b ha hb ne = ground arith
