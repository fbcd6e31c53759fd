-- ===== src/Tools/Fixes/Hunks/Needles.antt =====
-- The texts that the scripts look for in 0006-bbb-env-on-spi-mram.patch and put in.
use radsat_linux.Base.{Bytes, ◌++◌, codes}

abbrev pub size_inside : Bytes
size_inside =
    codes "+/* SPL has no SPI MRAM env driver; U-Boot proper owns MRAM/FRAM. */\n"
    ++ codes "+#ifdef CONFIG_SPL_BUILD\n"
    ++ codes "+#define CONFIG_ENV_IS_NOWHERE\n"
    ++ codes "+#else\n"
    ++ codes "+/*\n"
    ++ codes "+ * Primary env: SPI MRAM high region (see mram-service env_offset/env_size).\n"
    ++ codes "+ * EXT4 /uboot.env remains a load fallback inside env_mram.c.\n"
    ++ codes "+ */\n"
    ++ codes "+#define CONFIG_ENV_IS_IN_MRAM\t\t1\n"
    ++ codes "+#define CONFIG_ENV_MRAM_BUS\t\t1\n"
    ++ codes "+#define CONFIG_ENV_MRAM_CS\t\t0\n"
    ++ codes "+#define CONFIG_ENV_MRAM_MAX_HZ\t\t10000000\n"
    ++ codes "+#define CONFIG_ENV_MRAM_MODE\t\t0\n"
    ++ codes "+#define CONFIG_ENV_MRAM_OFFSET\t\t0x7D800\n"
    ++ codes "+#define CONFIG_ENV_SIZE\t\t\t(10 * 1024)\n"

abbrev pub size_first : Bytes
size_first =
    codes "+#define CONFIG_ENV_SIZE\t\t\t(10 * 1024)\n"
    ++ codes "+/* SPL has no SPI MRAM env driver; U-Boot proper owns MRAM/FRAM. */\n"
    ++ codes "+#ifdef CONFIG_SPL_BUILD\n"
    ++ codes "+#define CONFIG_ENV_IS_NOWHERE\n"
    ++ codes "+#else\n"
    ++ codes "+/*\n"
    ++ codes "+ * Primary env: SPI MRAM high region (see mram-service env_offset/env_size).\n"
    ++ codes "+ * EXT4 /uboot.env remains a load fallback inside env_mram.c.\n"
    ++ codes "+ */\n"
    ++ codes "+#define CONFIG_ENV_IS_IN_MRAM\t\t1\n"
    ++ codes "+#define CONFIG_ENV_MRAM_BUS\t\t1\n"
    ++ codes "+#define CONFIG_ENV_MRAM_CS\t\t0\n"
    ++ codes "+#define CONFIG_ENV_MRAM_MAX_HZ\t\t10000000\n"
    ++ codes "+#define CONFIG_ENV_MRAM_MODE\t\t0\n"
    ++ codes "+#define CONFIG_ENV_MRAM_OFFSET\t\t0x7D800\n"

abbrev pub intro : Bytes
intro =
    codes "+/* SPL has no SPI MRAM env driver; U-Boot proper owns MRAM/FRAM. */\n"
    ++ codes "+#ifdef CONFIG_SPL_BUILD\n"
    ++ codes " #define CONFIG_ENV_IS_NOWHERE\n"
    ++ codes " #else\n"

abbrev pub intro_with_size : Bytes
intro_with_size =
    codes "+#define CONFIG_ENV_SIZE\t\t\t(10 * 1024)\n"
    ++ codes "+/* SPL has no SPI MRAM env driver; U-Boot proper owns MRAM/FRAM. */\n"
    ++ codes "+#ifdef CONFIG_SPL_BUILD\n"
    ++ codes " #define CONFIG_ENV_IS_NOWHERE\n"
    ++ codes " #else\n"

abbrev pub offset_and_size : Bytes
offset_and_size =
    codes "+#define CONFIG_ENV_MRAM_OFFSET\t\t0x7D800\n"
    ++ codes "+#define CONFIG_ENV_SIZE\t\t\t(10 * 1024)\n"
    ++ codes "+#define CONFIG_EXT4_WRITE\n"

abbrev pub offset_alone : Bytes
offset_alone =
    codes "+#define CONFIG_ENV_MRAM_OFFSET\t\t0x7D800\n" ++ codes "+#define CONFIG_EXT4_WRITE\n"

abbrev pub usbeth_block : Bytes
usbeth_block =
    codes "+/* If we're compiling for the SPL, we don't have an env area */\n"
    ++ codes "+#if defined(CONFIG_SPL_BUILD) && defined(CONFIG_SPL_USBETH_SUPPORT)\n"
    ++ codes "+#define CONFIG_ENV_IS_NOWHERE\n"
    ++ codes "+#else\n"
    ++ codes "+/*\n"
    ++ codes "+ * Primary env: SPI MRAM high region (see mram-service env_offset/env_size).\n"
    ++ codes "+ * EXT4 /uboot.env remains a load fallback inside env_mram.c.\n"
    ++ codes "+ */\n"
    ++ codes "+#define CONFIG_ENV_IS_IN_MRAM\t\t1\n"

abbrev pub spl_block : Bytes
spl_block =
    codes "+/* SPL has no SPI MRAM env driver linked; use compiled-in defaults there. */\n"
    ++ codes "+#ifdef CONFIG_SPL_BUILD\n"
    ++ codes "+#define CONFIG_ENV_IS_NOWHERE\n"
    ++ codes "+#else\n"
    ++ codes "+/*\n"
    ++ codes "+ * Primary env: SPI MRAM high region (see mram-service env_offset/env_size).\n"
    ++ codes "+ * EXT4 /uboot.env remains a load fallback inside env_mram.c.\n"
    ++ codes "+ */\n"
    ++ codes "+#define CONFIG_ENV_IS_IN_MRAM\t\t1\n"

abbrev pub usbeth_guard : Bytes
usbeth_guard =
    codes "+#if defined(CONFIG_SPL_BUILD) && defined(CONFIG_SPL_USBETH_SUPPORT)\n"
    ++ codes "+#define CONFIG_ENV_IS_NOWHERE\n"
    ++ codes "+#else\n"
    ++ codes "+/*\n"
    ++ codes "+ * Primary env: SPI MRAM high region (see mram-service env_offset/env_size).\n"
    ++ codes "+ * EXT4 /uboot.env remains a load fallback inside env_mram.c.\n"
    ++ codes "+ */\n"
    ++ codes "+#define CONFIG_ENV_IS_IN_MRAM\t\t1\n"

abbrev pub spl_guard : Bytes
spl_guard =
    codes "+#ifdef CONFIG_SPL_BUILD\n"
    ++ codes "+#define CONFIG_ENV_IS_NOWHERE\n"
    ++ codes "+#else\n"
    ++ codes "+/*\n"
    ++ codes "+ * Primary env: SPI MRAM high region (see mram-service env_offset/env_size).\n"
    ++ codes "+ * EXT4 /uboot.env remains a load fallback inside env_mram.c.\n"
    ++ codes "+ */\n"
    ++ codes "+#define CONFIG_ENV_IS_IN_MRAM\t\t1\n"

abbrev pub usbeth_hunk : Bytes
usbeth_hunk =
    codes "@@ -47,15 +47,24 @@\n"
    ++ codes " #if defined(CONFIG_SPL_BUILD) && defined(CONFIG_SPL_USBETH_SUPPORT)\n"
    ++ codes " #define CONFIG_ENV_IS_NOWHERE\n"
    ++ codes " #else\n"
    ++ codes "-/* Otherwise, it's in an ext4 partition */\n"
    ++ codes "-#ifdef CONFIG_CMD_EXT4\n"
    ++ codes "+/*\n"
    ++ codes "+ * Primary env: SPI MRAM high region (see mram-service env_offset/env_size).\n"
    ++ codes "+ * EXT4 /uboot.env remains a load fallback inside env_mram.c.\n"
    ++ codes "+ */\n"
    ++ codes "+#define CONFIG_ENV_IS_IN_MRAM\t\t1\n"

abbrev pub spl_hunk : Bytes
spl_hunk =
    codes "@@ -47,15 +47,25 @@\n"
    ++ codes "-#if defined(CONFIG_SPL_BUILD) && defined(CONFIG_SPL_USBETH_SUPPORT)\n"
    ++ codes "+#ifdef CONFIG_SPL_BUILD\n"
    ++ codes " #define CONFIG_ENV_IS_NOWHERE\n"
    ++ codes " #else\n"
    ++ codes "-/* Otherwise, it's in an ext4 partition */\n"
    ++ codes "-#ifdef CONFIG_CMD_EXT4\n"
    ++ codes "+/*\n"
    ++ codes "+ * Primary env: SPI MRAM high region (see mram-service env_offset/env_size).\n"
    ++ codes "+ * EXT4 /uboot.env remains a load fallback inside env_mram.c.\n"
    ++ codes "+ */\n"
    ++ codes "+#define CONFIG_ENV_IS_IN_MRAM\t\t1\n"
