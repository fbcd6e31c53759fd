-- ===== src/Tools/Fixes/MramBits/Needles.antt =====
-- The texts of tools/fix-mram-bits.py.
use radsat_linux.Base.{Bytes, ◌++◌, codes}

abbrev pub twice_invalid : Bytes
twice_invalid =
    codes "pub enum BackendError {\n"
    ++ codes "    #[error(\"{0}\")]\n"
    ++ codes "    InvalidConfig(String),\n"
    ++ codes "    #[error(\"{0}\")]\n"
    ++ codes "    InvalidConfig(String),\n"

abbrev pub once_invalid : Bytes
once_invalid =
    codes "pub enum BackendError {\n"
    ++ codes "    #[error(\"{0}\")]\n"
    ++ codes "    InvalidConfig(String),\n"

abbrev pub chip_blocks : Bytes
chip_blocks = codes "const BLOCK_COUNT: usize = rust_mram::CAPACITY_BYTES as usize / BLOCK_SIZE;"

abbrev pub payload_blocks : Bytes
payload_blocks =
    codes
      "const BLOCK_COUNT: usize = crate::env_region::PAYLOAD_CAPACITY_BYTES as usize / BLOCK_SIZE;"

abbrev pub spi_mode : Bytes
spi_mode =
    codes
      "echo -e 'spi_mode = ${BR2_KUBOS_MRAM_SPI_MODE}\\n' >> $(KUBOS_CONFIG_FRAGMENT_DIR)/mram-service\n"
    ++ codes "endef\n"

abbrev pub spi_mode_region : Bytes
spi_mode_region =
    codes
      "echo 'spi_mode = ${BR2_KUBOS_MRAM_SPI_MODE}' >> $(KUBOS_CONFIG_FRAGMENT_DIR)/mram-service\n"
    ++ codes "\techo 'env_offset = 514048' >> $(KUBOS_CONFIG_FRAGMENT_DIR)/mram-service\n"
    ++ codes "\techo -e 'env_size = 10240\\n' >> $(KUBOS_CONFIG_FRAGMENT_DIR)/mram-service\n"
    ++ codes "endef\n"

abbrev pub install_service : Bytes
install_service =
    codes "\t$(INSTALL) -D -m 0755 $(KUBOS_CARGO_OUTPUT_DIR)/mram-service \\\n"
    ++ codes "\t\t$(TARGET_DIR)/usr/sbin\n"
    ++ codes "\n"
    ++ codes "\techo 'CHECK PROCESS kubos-mram"

abbrev pub install_both : Bytes
install_both =
    codes "\t$(INSTALL) -D -m 0755 $(KUBOS_CARGO_OUTPUT_DIR)/mram-service \\\n"
    ++ codes "\t\t$(TARGET_DIR)/usr/sbin\n"
    ++ codes "\tif [ -f $(KUBOS_CARGO_OUTPUT_DIR)/mram-env-sync ]; then \\\n"
    ++ codes "\t\t$(TARGET_STRIP) $(KUBOS_CARGO_OUTPUT_DIR)/mram-env-sync ; \\\n"
    ++ codes "\t\t$(INSTALL) -D -m 0755 $(KUBOS_CARGO_OUTPUT_DIR)/mram-env-sync \\\n"
    ++ codes "\t\t\t$(TARGET_DIR)/usr/sbin ; \\\n"
    ++ codes "\tfi\n"
    ++ codes "\n"
    ++ codes "\techo 'CHECK PROCESS kubos-mram"

abbrev pub marker : Bytes
marker = codes "/// Restricts littlefs/payload access"

abbrev pub offset_mark : Bytes
offset_mark = codes "env_offset"

abbrev pub sync_mark : Bytes
sync_mark = codes "mram-env-sync"
