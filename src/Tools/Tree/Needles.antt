-- ===== src/Tools/Tree/Needles.antt =====
-- The texts that `edit_tree` of tools/rewrite-uboot-0006-0007.py looks for and puts in, and the marks of an edit
-- that was made.
use radsat_linux.Base.{Bytes, ◌++◌, codes}

abbrev pub object_line : Bytes
object_line = codes "obj-$(CONFIG_ENV_IS_IN_EXT4) += env_ext4.o\n"

abbrev pub object_lines : Bytes
object_lines =
    codes "obj-$(CONFIG_ENV_IS_IN_EXT4) += env_ext4.o\n"
    ++ codes "obj-$(CONFIG_ENV_IS_IN_MRAM) += env_mram.o\n"
    ++ codes "obj-$(CONFIG_RADSAT_FRAM_POLICY) += fram_mission.o\n"

abbrev pub spl_block_start : Bytes
spl_block_start = codes "/* If we're compiling for the SPL"

abbrev pub spl_block_end : Bytes
spl_block_end = codes "#endif /* CONFIG_SPL_BUILD */"

abbrev pub mram_block : Bytes
mram_block =
    codes "/* SPL has no SPI MRAM env driver; U-Boot proper owns MRAM/FRAM. */\n"
    ++ codes "#ifdef CONFIG_SPL_BUILD\n"
    ++ codes "#define CONFIG_ENV_IS_NOWHERE\n"
    ++ codes "#else\n"
    ++ codes "/*\n"
    ++ codes " * Primary env: SPI MRAM high region (see mram-service env_offset/env_size).\n"
    ++ codes " * EXT4 /uboot.env remains a load fallback inside env_mram.c.\n"
    ++ codes " */\n"
    ++ codes "#define CONFIG_ENV_IS_IN_MRAM\t\t1\n"
    ++ codes "#define CONFIG_ENV_MRAM_BUS\t\t1\n"
    ++ codes "#define CONFIG_ENV_MRAM_CS\t\t0\n"
    ++ codes "#define CONFIG_ENV_MRAM_MAX_HZ\t\t10000000\n"
    ++ codes "#define CONFIG_ENV_MRAM_MODE\t\t0\n"
    ++ codes "#define CONFIG_ENV_MRAM_OFFSET\t\t0x7D800\n"
    ++ codes "#define CONFIG_ENV_SIZE\t\t\t(10 * 1024)\n"
    ++ codes "#define CONFIG_EXT4_WRITE\n"
    ++ codes "#define EXT4_ENV_INTERFACE\t\t\"mmc\"\n"
    ++ codes "#define EXT4_ENV_DEVICE_AND_PART\t\"0:3\"\n"
    ++ codes "#define EXT4_ENV_FILE\t\t\t\"/uboot.env\"\n"
    ++ codes "#define CONFIG_RADSAT_FRAM_POLICY\t1\n"
    ++ codes "#define CONFIG_FRAM_I2C_BUS\t\t2\n"
    ++ codes "#define CONFIG_FRAM_I2C_ADDR\t\t0x50\n"
    ++ codes "#endif /* CONFIG_SPL_BUILD */"

abbrev pub not_in_spi_flash : Bytes
not_in_spi_flash = codes "!defined(CONFIG_ENV_IS_IN_SPI_FLASH)"

abbrev pub not_in_mram : Bytes
not_in_mram =
    codes "!defined(CONFIG_ENV_IS_IN_SPI_FLASH) && \\\n"
    ++ codes "\t!defined(CONFIG_ENV_IS_IN_MRAM)"

abbrev pub spi0_pins : Bytes
spi0_pins = codes "static struct module_pin_mux spi0_pin_mux[] = {\n"

abbrev pub spi1_pins : Bytes
spi1_pins =
    codes "\n"
    ++ codes "static struct module_pin_mux spi1_pin_mux[] = {\n"
    ++ codes "\t{OFFSET(mcasp0_aclkx), (MODE(3) | RXACTIVE | PULLUDEN)},\t/* SPI1_SCLK */\n"
    ++ codes "\t{OFFSET(mcasp0_fsx), (MODE(3) | RXACTIVE | PULLUDEN | PULLUP_EN)}, /* SPI1_D0 */\n"
    ++ codes "\t{OFFSET(mcasp0_axr0), (MODE(3) | RXACTIVE | PULLUDEN)},\t/* SPI1_D1 */\n"
    ++ codes
        "\t{OFFSET(mcasp0_ahclkr), (MODE(3) | RXACTIVE | PULLUDEN | PULLUP_EN)}, /* SPI1_CS0 */\n"
    ++ codes "\t{-1},\n"
    ++ codes "};\n"
    ++ codes "\n"
    ++ codes "static struct module_pin_mux i2c2_pin_mux[] = {\n"
    ++ codes "\t{OFFSET(uart1_ctsn), (MODE(3) | RXACTIVE | PULLUDEN | PULLUP_EN)}, /* I2C2_SDA */\n"
    ++ codes "\t{OFFSET(uart1_rtsn), (MODE(3) | RXACTIVE | PULLUDEN | PULLUP_EN)}, /* I2C2_SCL */\n"
    ++ codes "\t{-1},\n"
    ++ codes "};\n"
    ++ codes "\n"
    ++ codes "static struct module_pin_mux spi0_pin_mux[] = {\n"

abbrev pub enable_i2c0 : Bytes
enable_i2c0 = codes "void enable_i2c0_pin_mux(void)\n" ++ codes "{\n"

abbrev pub enable_spi1 : Bytes
enable_spi1 =
    codes "void enable_spi1_pin_mux(void)\n"
    ++ codes "{\n"
    ++ codes "\tconfigure_module_pin_mux(spi1_pin_mux);\n"
    ++ codes "}\n"
    ++ codes "\n"
    ++ codes "void enable_i2c2_pin_mux(void)\n"
    ++ codes "{\n"
    ++ codes "\tconfigure_module_pin_mux(i2c2_pin_mux);\n"
    ++ codes "}\n"
    ++ codes "\n"
    ++ codes "void enable_i2c0_pin_mux(void)\n"
    ++ codes "{\n"

abbrev pub declare_i2c0 : Bytes
declare_i2c0 = codes "void enable_i2c0_pin_mux(void);\n"

abbrev pub declare_spi1 : Bytes
declare_spi1 =
    codes "void enable_i2c0_pin_mux(void);\n"
    ++ codes "void enable_spi1_pin_mux(void);\n"
    ++ codes "void enable_i2c2_pin_mux(void);\n"

abbrev pub init_i2c0 : Bytes
init_i2c0 =
    codes "\tenable_i2c0_pin_mux();\n"
    ++ codes "\ti2c_init(CONFIG_SYS_OMAP24_I2C_SPEED, CONFIG_SYS_OMAP24_I2C_SLAVE);\n"

abbrev pub init_spi1 : Bytes
init_spi1 =
    codes "\tenable_i2c0_pin_mux();\n"
    ++ codes "\tenable_i2c2_pin_mux();\n"
    ++ codes "\tenable_spi1_pin_mux();\n"
    ++ codes "\ti2c_init(CONFIG_SYS_OMAP24_I2C_SPEED, CONFIG_SYS_OMAP24_I2C_SLAVE);\n"

abbrev pub late_init : Bytes
late_init = codes "int board_late_init(void)\n" ++ codes "{\n"

abbrev pub late_init_overlay : Bytes
late_init_overlay =
    codes "int board_late_init(void)\n"
    ++ codes "{\n"
    ++ codes "#ifdef CONFIG_RADSAT_FRAM_POLICY\n"
    ++ codes "\tradsat_fram_overlay_env();\n"
    ++ codes "#endif\n"

abbrev pub overlay_declaration : Bytes
overlay_declaration = codes "void radsat_fram_overlay_env(void);\n"

abbrev pub env_mram_o : Bytes
env_mram_o = codes "env_mram.o"

abbrev pub config_env_is_in_mram : Bytes
config_env_is_in_mram = codes "CONFIG_ENV_IS_IN_MRAM"

abbrev pub spi1_pin_mux : Bytes
spi1_pin_mux = codes "spi1_pin_mux"

abbrev pub enable_spi1_pin_mux : Bytes
enable_spi1_pin_mux = codes "enable_spi1_pin_mux"

abbrev pub enable_spi1_pin_mux_call : Bytes
enable_spi1_pin_mux_call = codes "enable_spi1_pin_mux();"

abbrev pub radsat_fram_overlay_env : Bytes
radsat_fram_overlay_env = codes "radsat_fram_overlay_env"
