-- ===== src/Tools/Plan/Layout.antt =====
-- The texts of tools/apply-mram-fram-plan.py for src/layout.rs of fram-service: what it looks for and what it puts in.
use radsat_linux.Base.{Bytes, ◌++◌, codes}

abbrev pub region_end : Bytes
region_end =
    codes
      "pub const MISSION_REGION_END: u32 = RESERVED_KEYS * SLOTS_PER_KEY * RECORD_SIZE as u32;\n"
    ++ codes "\n"
    ++ codes "const MAGIC: u16 = 0x4652; // \"FR\"\n"
    ++ codes "const VERSION: u8 = 1;\n"

abbrev pub header_consts : Bytes
header_consts =
    codes
      "pub const MISSION_REGION_END: u32 = RESERVED_KEYS * SLOTS_PER_KEY * RECORD_SIZE as u32;\n"
    ++ codes "\n"
    ++ codes "/// Fixed layout header in free/scratch (never overlaps dual-slot records).\n"
    ++ codes "/// Wrong-image dumps fail this check instead of looking like valid policy.\n"
    ++ codes "pub const LAYOUT_HEADER_OFFSET: u32 = MISSION_REGION_END;\n"
    ++ codes "pub const LAYOUT_HEADER_SIZE: u32 = 16;\n"
    ++ codes "/// ASCII \"FRAM\" little-endian.\n"
    ++ codes "pub const LAYOUT_MAGIC: u32 = 0x4D_41_52_46;\n"
    ++ codes "/// Bump when mission key offsets / types change incompatibly.\n"
    ++ codes "pub const LAYOUT_VERSION: u16 = 1;\n"
    ++ codes "\n"
    ++ codes "const MAGIC: u16 = 0x4652; // \"FR\"\n"
    ++ codes "const VERSION: u8 = 1;\n"

abbrev pub verify_checksum : Bytes
verify_checksum =
    codes "    pub fn verify_boot_checksum(&mut self) -> Result<bool, LayoutError> {\n"
    ++ codes "        match self.stored_boot_checksum()? {\n"
    ++ codes "            Some(stored) => Ok(stored == self.compute_boot_checksum()?),\n"
    ++ codes "            None => Ok(false),\n"
    ++ codes "        }\n"
    ++ codes "    }\n"

abbrev pub header_methods : Bytes
header_methods =
    codes "    pub fn verify_boot_checksum(&mut self) -> Result<bool, LayoutError> {\n"
    ++ codes "        match self.stored_boot_checksum()? {\n"
    ++ codes "            Some(stored) => Ok(stored == self.compute_boot_checksum()?),\n"
    ++ codes "            None => Ok(false),\n"
    ++ codes "        }\n"
    ++ codes "    }\n"
    ++ codes "\n"
    ++ codes "    /// Write layout magic/version if missing or blank. Never fatal for callers.\n"
    ++ codes "    pub fn ensure_layout_header(&mut self) -> Result<(), LayoutError> {\n"
    ++ codes "        if self.verify_layout_header()? {\n"
    ++ codes "            return Ok(());\n"
    ++ codes "        }\n"
    ++ codes "        let mut raw = [0u8; LAYOUT_HEADER_SIZE as usize];\n"
    ++ codes "        raw[0..4].copy_from_slice(&LAYOUT_MAGIC.to_le_bytes());\n"
    ++ codes "        raw[4..6].copy_from_slice(&LAYOUT_VERSION.to_le_bytes());\n"
    ++ codes "        self.storage\n"
    ++ codes "            .write(LAYOUT_HEADER_OFFSET, &raw)\n"
    ++ codes "            .map_err(LayoutError::Backend)?;\n"
    ++ codes "        Ok(())\n"
    ++ codes "    }\n"
    ++ codes "\n"
    ++ codes "    pub fn verify_layout_header(&mut self) -> Result<bool, LayoutError> {\n"
    ++ codes "        let mut raw = [0u8; LAYOUT_HEADER_SIZE as usize];\n"
    ++ codes "        self.storage\n"
    ++ codes "            .read(LAYOUT_HEADER_OFFSET, &mut raw)\n"
    ++ codes "            .map_err(LayoutError::Backend)?;\n"
    ++ codes "        let magic = u32::from_le_bytes(raw[0..4].try_into().unwrap());\n"
    ++ codes "        let version = u16::from_le_bytes(raw[4..6].try_into().unwrap());\n"
    ++ codes "        Ok(magic == LAYOUT_MAGIC && version == LAYOUT_VERSION)\n"
    ++ codes "    }\n"
    ++ codes "\n"
    ++ codes "    pub fn layout_version(&mut self) -> Result<Option<u16>, LayoutError> {\n"
    ++ codes "        if !self.verify_layout_header()? {\n"
    ++ codes "            return Ok(None);\n"
    ++ codes "        }\n"
    ++ codes "        Ok(Some(LAYOUT_VERSION))\n"
    ++ codes "    }\n"

abbrev pub map_without_header : Bytes
map_without_header =
    codes "    MemoryMap {\n"
    ++ codes "        capacity_bytes: i64::from(capacity),\n"
    ++ codes "        mission_region_start: i64::from(MISSION_REGION_START),\n"
    ++ codes "        mission_region_end: i64::from(MISSION_REGION_END),\n"
    ++ codes "        free_region_start: i64::from(free_start),\n"
    ++ codes "        free_region_end: i64::from(free_end),\n"
    ++ codes "        regions: vec![\n"
    ++ codes "            MemoryMapRegion {\n"
    ++ codes "                name: \"boot_records\".to_string(),\n"
    ++ codes "                start_offset: i64::from(BOOT_REGION_START),\n"
    ++ codes "                end_offset: i64::from(BOOT_REGION_END),\n"
    ++ codes "                size_bytes: i64::from(BOOT_REGION_END - BOOT_REGION_START),\n"
    ++ codes "            },\n"
    ++ codes "            MemoryMapRegion {\n"
    ++ codes "                name: \"mission_records\".to_string(),\n"
    ++ codes "                start_offset: i64::from(BOOT_REGION_END),\n"
    ++ codes "                end_offset: i64::from(MISSION_REGION_END),\n"
    ++ codes "                size_bytes: i64::from(MISSION_REGION_END - BOOT_REGION_END),\n"
    ++ codes "            },\n"
    ++ codes "            MemoryMapRegion {\n"
    ++ codes "                name: \"free_scratch\".to_string(),\n"
    ++ codes "                start_offset: i64::from(free_start),\n"
    ++ codes "                end_offset: i64::from(free_end),\n"
    ++ codes "                size_bytes: i64::from(free_end.saturating_sub(free_start)),\n"
    ++ codes "            },\n"
    ++ codes "        ],\n"

abbrev pub map_with_header : Bytes
map_with_header =
    codes "    MemoryMap {\n"
    ++ codes "        capacity_bytes: i64::from(capacity),\n"
    ++ codes "        layout_magic: i64::from(LAYOUT_MAGIC),\n"
    ++ codes "        layout_version: i64::from(LAYOUT_VERSION),\n"
    ++ codes "        mission_region_start: i64::from(MISSION_REGION_START),\n"
    ++ codes "        mission_region_end: i64::from(MISSION_REGION_END),\n"
    ++ codes "        free_region_start: i64::from(free_start),\n"
    ++ codes "        free_region_end: i64::from(free_end),\n"
    ++ codes "        regions: vec![\n"
    ++ codes "            MemoryMapRegion {\n"
    ++ codes "                name: \"boot_records\".to_string(),\n"
    ++ codes "                start_offset: i64::from(BOOT_REGION_START),\n"
    ++ codes "                end_offset: i64::from(BOOT_REGION_END),\n"
    ++ codes "                size_bytes: i64::from(BOOT_REGION_END - BOOT_REGION_START),\n"
    ++ codes "            },\n"
    ++ codes "            MemoryMapRegion {\n"
    ++ codes "                name: \"mission_records\".to_string(),\n"
    ++ codes "                start_offset: i64::from(BOOT_REGION_END),\n"
    ++ codes "                end_offset: i64::from(MISSION_REGION_END),\n"
    ++ codes "                size_bytes: i64::from(MISSION_REGION_END - BOOT_REGION_END),\n"
    ++ codes "            },\n"
    ++ codes "            MemoryMapRegion {\n"
    ++ codes "                name: \"layout_header\".to_string(),\n"
    ++ codes "                start_offset: i64::from(LAYOUT_HEADER_OFFSET),\n"
    ++ codes "                end_offset: i64::from(LAYOUT_HEADER_OFFSET + LAYOUT_HEADER_SIZE),\n"
    ++ codes "                size_bytes: i64::from(LAYOUT_HEADER_SIZE),\n"
    ++ codes "            },\n"
    ++ codes "            MemoryMapRegion {\n"
    ++ codes "                name: \"free_scratch\".to_string(),\n"
    ++ codes "                start_offset: i64::from(LAYOUT_HEADER_OFFSET + LAYOUT_HEADER_SIZE),\n"
    ++ codes "                end_offset: i64::from(free_end),\n"
    ++ codes "                size_bytes: i64::from(\n"
    ++ codes
        "                    free_end.saturating_sub(LAYOUT_HEADER_OFFSET + LAYOUT_HEADER_SIZE),\n"
    ++ codes "                ),\n"
    ++ codes "            },\n"
    ++ codes "        ],\n"

abbrev pub checksum_test : Bytes
checksum_test =
    codes "    fn boot_checksum_tracks_policy_writes() {\n"
    ++ codes "        let (_tmp, mut storage) = storage();\n"
    ++ codes "        assert!(!storage.verify_boot_checksum().unwrap());\n"

abbrev pub header_test : Bytes
header_test =
    codes "    fn layout_header_round_trip() {\n"
    ++ codes "        let (_tmp, mut storage) = storage();\n"
    ++ codes "        assert!(!storage.verify_layout_header().unwrap());\n"
    ++ codes "        storage.ensure_layout_header().unwrap();\n"
    ++ codes "        assert!(storage.verify_layout_header().unwrap());\n"
    ++ codes "        assert_eq!(storage.layout_version().unwrap(), Some(LAYOUT_VERSION));\n"
    ++ codes "        assert_eq!(LAYOUT_HEADER_OFFSET, 2048);\n"
    ++ codes "    }\n"
    ++ codes "\n"
    ++ codes "    #[test]\n"
    ++ codes "    fn boot_checksum_tracks_policy_writes() {\n"
    ++ codes "        let (_tmp, mut storage) = storage();\n"
    ++ codes "        assert!(!storage.verify_boot_checksum().unwrap());\n"
