-- ===== src/Fram/Header/Regions.antt =====
-- The regions that `memory_map` of fram-service's src/layout.rs reports, as tools/apply-mram-fram-plan.py writes them. The
-- constants BOOT_REGION_START and BOOT_REGION_END and the end of the chip, `free_end`, are arguments.
use radsat_linux.Base.{ℕ, ◌+◌, ◌-◌, ◌≤◌, ◌≡◌, refl, List, [], ◌∷◌, Bytes, codes, arith}
use radsat_linux.Fram.Header.{mission_region_end, layout_header_size}

pub record MemoryMapRegion : Type 0 where
  pub name : Bytes
  pub start_offset : ℕ
  pub end_offset : ℕ
  pub size_bytes : ℕ

abbrev region : Bytes → ℕ → ℕ → ℕ → MemoryMapRegion
region name start_offset end_offset size_bytes = record {
  name = name;
  start_offset = start_offset;
  end_offset = end_offset;
  size_bytes = size_bytes;
}

unfoldable pub regions : ℕ → ℕ → ℕ → ℕ → List MemoryMapRegion
regions reserved_keys boot_start boot_end free_end =
    let offset = mission_region_end reserved_keys in
    region (codes "boot_records") boot_start boot_end (boot_end - boot_start)
    ∷ region (codes "mission_records") boot_end offset (offset - boot_end)
    ∷ region (codes "layout_header") offset (offset + layout_header_size) layout_header_size
    ∷ region (codes "free_scratch") (offset + layout_header_size) free_end
        (free_end - (offset + layout_header_size))
    ∷ []

-- The regions lie one behind the other from `start` to `end`, each with its true size.
abbrev pub IsTiling : ℕ → List MemoryMapRegion → ℕ → Type 0
IsTiling start [] end = start ≡ end
IsTiling start (r ∷ rs) end =
    (r.start_offset ≡ start) × (r.end_offset ≡ start + r.size_bytes) × IsTiling r.end_offset rs end

-- The regions tile the chip from the first boot record to its end, if the boot records end below the other records and
-- the chip has room for the layout header behind these.
pub regions-IsTiling :
    (reserved_keys boot_start boot_end free_end : ℕ)
    → boot_start ≤ boot_end
    → boot_end ≤ mission_region_end reserved_keys
    → mission_region_end reserved_keys + layout_header_size ≤ free_end
    → IsTiling boot_start (regions reserved_keys boot_start boot_end free_end) free_end
unfolding regions
regions-IsTiling reserved_keys boot_start boot_end free_end boot records room =
    (refl, omega arith, (refl, omega arith, (refl, refl, (refl, omega arith, refl))))
