-- ===== src/Tools/Plan/Model.antt =====
-- The texts of tools/apply-mram-fram-plan.py for src/model.rs and src/schema.rs of fram-service.
use radsat_linux.Base.{Bytes, ◌++◌, codes}

abbrev pub mirrors_to_env : Bytes
mirrors_to_env =
    codes "    pub fn mirrors_to_env(self) -> bool {\n"
    ++ codes "        !matches!(self, Self::BootChecksum)\n"
    ++ codes "    }\n"

abbrev pub forbidden_names : Bytes
forbidden_names =
    codes "    pub fn mirrors_to_env(self) -> bool {\n"
    ++ codes "        !matches!(self, Self::BootChecksum)\n"
    ++ codes "    }\n"
    ++ codes "\n"
    ++ codes "    /// Names U-Boot/Linux must never accept from FRAM as classic boot env.\n"
    ++ codes "    pub fn is_forbidden_boot_env_name(name: &str) -> bool {\n"
    ++ codes "        matches!(\n"
    ++ codes "            name.trim().to_ascii_lowercase().as_str(),\n"
    ++ codes "            \"bootcmd\"\n"
    ++ codes "            | \"bootargs\"\n"
    ++ codes "            | \"bootdelay\"\n"
    ++ codes "            | \"bootfile\"\n"
    ++ codes "            | \"dfu_alt_info\"\n"
    ++ codes "            | \"dfu_alt_info_mmc\"\n"
    ++ codes "            | \"dfu_alt_info_nor\"\n"
    ++ codes "            | \"distro_bootcmd\"\n"
    ++ codes "            | \"mmcboot\"\n"
    ++ codes "            | \"uuid\"\n"
    ++ codes "            | \"bootpart\"\n"
    ++ codes "            | \"root\"\n"
    ++ codes "            | \"loaduimage\"\n"
    ++ codes "            | \"loadfdt\"\n"
    ++ codes "        )\n"
    ++ codes "    }\n"

abbrev pub memory_map : Bytes
memory_map =
    codes "pub struct MemoryMap {\n"
    ++ codes "    pub capacity_bytes: i64,\n"
    ++ codes "    pub mission_region_start: i64,\n"
    ++ codes "    pub mission_region_end: i64,\n"
    ++ codes "    pub free_region_start: i64,\n"
    ++ codes "    pub free_region_end: i64,\n"
    ++ codes "    pub regions: Vec<MemoryMapRegion>,\n"
    ++ codes "    pub flags: Vec<MemoryMapEntry>,\n"
    ++ codes "}\n"

abbrev pub memory_map_layout : Bytes
memory_map_layout =
    codes "pub struct MemoryMap {\n"
    ++ codes "    pub capacity_bytes: i64,\n"
    ++ codes "    pub layout_magic: i64,\n"
    ++ codes "    pub layout_version: i64,\n"
    ++ codes "    pub mission_region_start: i64,\n"
    ++ codes "    pub mission_region_end: i64,\n"
    ++ codes "    pub free_region_start: i64,\n"
    ++ codes "    pub free_region_end: i64,\n"
    ++ codes "    pub regions: Vec<MemoryMapRegion>,\n"
    ++ codes "    pub flags: Vec<MemoryMapEntry>,\n"
    ++ codes "}\n"
