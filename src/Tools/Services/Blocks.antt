-- ===== src/Tools/Services/Blocks.antt =====
-- The texts of tools/apply-mram-env-region.py that change files which are there.
use radsat_linux.Base.{Bytes, ◌++◌, codes}

abbrev pub mount_device : Bytes
mount_device =
    codes "    pub fn mount(backend: Box<dyn ByteStorage>) -> Result<Self, FsError> {\n"
    ++ codes "        if backend.capacity() != rust_mram::CAPACITY_BYTES {\n"
    ++ codes "            return Err(FsError::CapacityMismatch {\n"
    ++ codes "                actual: backend.capacity(),\n"
    ++ codes "                expected: rust_mram::CAPACITY_BYTES,\n"
    ++ codes "            });\n"
    ++ codes "        }\n"

abbrev pub mount_payload : Bytes
mount_payload =
    codes "    pub fn mount(backend: Box<dyn ByteStorage>) -> Result<Self, FsError> {\n"
    ++ codes "        // Payload window excludes the high U-Boot env reservation.\n"
    ++ codes "        let expected = crate::env_region::PAYLOAD_CAPACITY_BYTES;\n"
    ++ codes "        if backend.capacity() != expected {\n"
    ++ codes "            return Err(FsError::CapacityMismatch {\n"
    ++ codes "                actual: backend.capacity(),\n"
    ++ codes "                expected,\n"
    ++ codes "            });\n"
    ++ codes "        }\n"

abbrev pub memory_backend : Bytes
memory_backend = codes "MemoryBackend::new(rust_mram::CAPACITY_BYTES)"

abbrev pub memory_payload : Bytes
memory_payload = codes "MemoryBackend::new(crate::env_region::PAYLOAD_CAPACITY_BYTES)"

abbrev pub file_backend : Bytes
file_backend = codes "FileImageBackend::new(path, rust_mram::CAPACITY_BYTES)"

abbrev pub file_payload : Bytes
file_payload = codes "FileImageBackend::new(path, crate::env_region::PAYLOAD_CAPACITY_BYTES)"

abbrev pub storage_type : Bytes
storage_type =
    codes "#[derive(SimpleObject)]\n"
    ++ codes "pub struct StorageInfo {\n"
    ++ codes "    pub backend: String,\n"
    ++ codes "    pub capacity_bytes: i64,\n"
    ++ codes "    pub allocated_bytes: i64,\n"
    ++ codes "    pub live_bytes: i64,\n"
    ++ codes "    pub reclaimable_bytes: i64,\n"
    ++ codes "    pub free_bytes: i64,\n"
    ++ codes "    pub file_count: i64,\n"
    ++ codes "}\n"

abbrev pub region_type : Bytes
region_type =
    codes "#[derive(SimpleObject)]\n"
    ++ codes "pub struct StorageInfo {\n"
    ++ codes "    pub backend: String,\n"
    ++ codes "    pub capacity_bytes: i64,\n"
    ++ codes "    pub allocated_bytes: i64,\n"
    ++ codes "    pub live_bytes: i64,\n"
    ++ codes "    pub reclaimable_bytes: i64,\n"
    ++ codes "    pub free_bytes: i64,\n"
    ++ codes "    pub file_count: i64,\n"
    ++ codes "}\n"
    ++ codes "\n"
    ++ codes "#[derive(SimpleObject)]\n"
    ++ codes "pub struct EnvRegion {\n"
    ++ codes "    pub offset: i64,\n"
    ++ codes "    pub size: i64,\n"
    ++ codes "    pub capacity_bytes: i64,\n"
    ++ codes "    pub payload_capacity_bytes: i64,\n"
    ++ codes "    pub crc_valid: bool,\n"
    ++ codes "    pub crc: i64,\n"
    ++ codes "}\n"

abbrev pub storage_query : Bytes
storage_query =
    codes "    async fn storage(&self, ctx: &Context<'_>) -> Result<StorageInfo> {\n"
    ++ codes "        let context = ctx.data::<kubos_service::Context<Subsystem>>()?;\n"
    ++ codes "        let stats = context\n"
    ++ codes "            .subsystem()\n"
    ++ codes "            .stats()\n"
    ++ codes "            .map_err(async_graphql::Error::new)?;\n"
    ++ codes "\n"
    ++ codes "        Ok(StorageInfo {\n"
    ++ codes "            backend: context.subsystem().backend_name().to_string(),\n"
    ++ codes "            capacity_bytes: stats.capacity_bytes as i64,\n"
    ++ codes "            allocated_bytes: stats.allocated_bytes as i64,\n"
    ++ codes "            live_bytes: stats.live_bytes as i64,\n"
    ++ codes "            reclaimable_bytes: stats.reclaimable_bytes as i64,\n"
    ++ codes "            free_bytes: stats.free_bytes as i64,\n"
    ++ codes "            file_count: stats.file_count as i64,\n"
    ++ codes "        })\n"
    ++ codes "    }\n"

abbrev pub region_query : Bytes
region_query =
    codes "    async fn storage(&self, ctx: &Context<'_>) -> Result<StorageInfo> {\n"
    ++ codes "        let context = ctx.data::<kubos_service::Context<Subsystem>>()?;\n"
    ++ codes "        let stats = context\n"
    ++ codes "            .subsystem()\n"
    ++ codes "            .stats()\n"
    ++ codes "            .map_err(async_graphql::Error::new)?;\n"
    ++ codes "\n"
    ++ codes "        Ok(StorageInfo {\n"
    ++ codes "            backend: context.subsystem().backend_name().to_string(),\n"
    ++ codes "            capacity_bytes: stats.capacity_bytes as i64,\n"
    ++ codes "            allocated_bytes: stats.allocated_bytes as i64,\n"
    ++ codes "            live_bytes: stats.live_bytes as i64,\n"
    ++ codes "            reclaimable_bytes: stats.reclaimable_bytes as i64,\n"
    ++ codes "            free_bytes: stats.free_bytes as i64,\n"
    ++ codes "            file_count: stats.file_count as i64,\n"
    ++ codes "        })\n"
    ++ codes "    }\n"
    ++ codes "\n"
    ++ codes "    /// Reserved high MRAM region used for the U-Boot environment blob.\n"
    ++ codes "    async fn env_region(&self, ctx: &Context<'_>) -> Result<EnvRegion> {\n"
    ++ codes "        let context = ctx.data::<kubos_service::Context<Subsystem>>()?;\n"
    ++ codes "        let info = context\n"
    ++ codes "            .subsystem()\n"
    ++ codes "            .env_region_info()\n"
    ++ codes "            .map_err(async_graphql::Error::new)?;\n"
    ++ codes "        Ok(EnvRegion {\n"
    ++ codes "            offset: info.offset as i64,\n"
    ++ codes "            size: info.size as i64,\n"
    ++ codes "            capacity_bytes: info.capacity_bytes as i64,\n"
    ++ codes "            payload_capacity_bytes: info.payload_capacity_bytes as i64,\n"
    ++ codes "            crc_valid: info.crc_valid,\n"
    ++ codes "            crc: info.crc as i64,\n"
    ++ codes "        })\n"
    ++ codes "    }\n"

abbrev pub config_lines : Bytes
config_lines =
    codes "image_capacity_bytes = 524288\n"
    ++ codes "# High-end U-Boot env reservation (must match U-Boot CONFIG_ENV_*).\n"
    ++ codes "env_offset = 514048\n"
    ++ codes "env_size = 10240\n"

abbrev pub cargo_bins : Bytes
cargo_bins =
    codes "\n"
    ++ codes "[[bin]]\n"
    ++ codes "name = \"mram-service\"\n"
    ++ codes "path = \"src/main.rs\"\n"
    ++ codes "\n"
    ++ codes "[[bin]]\n"
    ++ codes "name = \"mram-env-sync\"\n"
    ++ codes "path = \"src/bin/mram_env_sync.rs\"\n"

abbrev pub readme_section : Bytes
readme_section =
    codes "\n"
    ++ codes "\n"
    ++ codes "## U-Boot environment reservation\n"
    ++ codes "\n"
    ++ codes "The high `0x2800` (10240) bytes of MRAM are reserved for the classic U-Boot\n"
    ++ codes "environment blob (`env_offset = capacity - env_size`). littlefs / GraphQL file\n"
    ++ codes "APIs only see the payload window below that offset and cannot overwrite it.\n"
    ++ codes "\n"
    ++ codes "Query reserved region / CRC:\n"
    ++ codes "\n"
    ++ codes "```graphql\n"
    ++ codes "{ envRegion { offset size payloadCapacityBytes crcValid crc } }\n"
    ++ codes "```\n"

abbrev pub install_service : Bytes
install_service =
    codes "define MRAM_INSTALL_TARGET_CMDS\n"
    ++ codes "\tmkdir -p $(TARGET_DIR)/usr/sbin\n"
    ++ codes "\tPATH=$(PATH):~/.cargo/bin:$(HOST_DIR)/bin && \\\n"
    ++ codes "\t$(TARGET_STRIP) $(KUBOS_CARGO_OUTPUT_DIR)/mram-service\n"
    ++ codes "\t$(INSTALL) -D -m 0755 $(KUBOS_CARGO_OUTPUT_DIR)/mram-service \\\n"
    ++ codes "\t\t$(TARGET_DIR)/usr/sbin\n"

abbrev pub install_sync : Bytes
install_sync =
    codes "define MRAM_INSTALL_TARGET_CMDS\n"
    ++ codes "\tmkdir -p $(TARGET_DIR)/usr/sbin\n"
    ++ codes "\tPATH=$(PATH):~/.cargo/bin:$(HOST_DIR)/bin && \\\n"
    ++ codes "\t$(TARGET_STRIP) $(KUBOS_CARGO_OUTPUT_DIR)/mram-service\n"
    ++ codes "\t$(INSTALL) -D -m 0755 $(KUBOS_CARGO_OUTPUT_DIR)/mram-service \\\n"
    ++ codes "\t\t$(TARGET_DIR)/usr/sbin\n"
    ++ codes "\tif [ -f $(KUBOS_CARGO_OUTPUT_DIR)/mram-env-sync ]; then \\\n"
    ++ codes "\t\t$(TARGET_STRIP) $(KUBOS_CARGO_OUTPUT_DIR)/mram-env-sync ; \\\n"
    ++ codes "\t\t$(INSTALL) -D -m 0755 $(KUBOS_CARGO_OUTPUT_DIR)/mram-env-sync \\\n"
    ++ codes "\t\t\t$(TARGET_DIR)/usr/sbin ; \\\n"
    ++ codes "\tfi\n"

abbrev pub fragment : Bytes
fragment =
    codes
      "\techo 'spi_mode = ${BR2_KUBOS_MRAM_SPI_MODE}\\n' >> $(KUBOS_CONFIG_FRAGMENT_DIR)/mram-service\n"
    ++ codes "endef\n"

abbrev pub fragment_env : Bytes
fragment_env =
    codes
      "\techo 'spi_mode = ${BR2_KUBOS_MRAM_SPI_MODE}' >> $(KUBOS_CONFIG_FRAGMENT_DIR)/mram-service\n"
    ++ codes "\techo 'env_offset = 514048' >> $(KUBOS_CONFIG_FRAGMENT_DIR)/mram-service\n"
    ++ codes "\techo -e 'env_size = 10240\\n' >> $(KUBOS_CONFIG_FRAGMENT_DIR)/mram-service\n"
    ++ codes "endef\n"
