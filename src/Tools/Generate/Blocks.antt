-- ===== src/Tools/Generate/Blocks.antt =====
-- The texts of the first `edit_tree` that the second has not.
use radsat_linux.Base.{Bytes, ◌++◌, codes}

abbrev pub env_block : Bytes
env_block =
    codes "/* If we're compiling for the SPL, we don't have an env area */\n"
    ++ codes "#if defined(CONFIG_SPL_BUILD) && defined(CONFIG_SPL_USBETH_SUPPORT)\n"
    ++ codes "#define CONFIG_ENV_IS_NOWHERE\n"
    ++ codes "#else\n"
    ++ codes "/*\n"
    ++ codes " * Primary env: SPI MRAM high region (see mram-service env_offset/env_size).\n"
    ++ codes " * EXT4 /uboot.env remains a load fallback inside env_mram.c.\n"
    ++ codes " */\n"
    ++ codes "#define CONFIG_ENV_IS_IN_MRAM\t\t1\n"
    ++ codes "#define CONFIG_ENV_MRAM_BUS\t\t1\n"
    ++ codes "#define CONFIG_ENV_MRAM_CS\t\t0\n"
    ++ codes "#define CONFIG_ENV_MRAM_MAX_HZ\t\t10000000\n"
    ++ codes "#define CONFIG_ENV_MRAM_MODE\t\t0\n"
    ++ codes "#define CONFIG_ENV_MRAM_OFFSET\t\t0x7D800\n"
    ++ codes "#define CONFIG_ENV_SIZE\t\t\t(10 * 1024)\n"
    ++ codes "#define CONFIG_EXT4_WRITE\n"
    ++ codes "#define EXT4_ENV_INTERFACE\t\t\"mmc\"\n"
    ++ codes "#define EXT4_ENV_DEVICE_AND_PART\t\"0:3\"\n"
    ++ codes "#define EXT4_ENV_FILE\t\t\t\"/uboot.env\"\n"
    ++ codes "#define CONFIG_RADSAT_FRAM_POLICY\t1\n"
    ++ codes "#define CONFIG_FRAM_I2C_BUS\t\t2\n"
    ++ codes "#define CONFIG_FRAM_I2C_ADDR\t\t0x50\n"
    ++ codes "#endif /* CONFIG_SPL_BUILD */"

abbrev pub device_emmc : Bytes
device_emmc = codes "EXT4_ENV_DEVICE_AND_PART \"0:3\""

abbrev pub device_sd : Bytes
device_sd = codes "EXT4_ENV_DEVICE_AND_PART \"1:3\""
