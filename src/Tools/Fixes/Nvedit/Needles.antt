-- ===== src/Tools/Fixes/Nvedit/Needles.antt =====
-- The texts of tools/add-nvedit-mram.py.
use radsat_linux.Base.{Bytes, ◌++◌, codes}

abbrev pub env_list : Bytes
env_list =
    codes "\t!defined(CONFIG_ENV_IS_IN_UBI)\t\t&& \\\n"
    ++ codes "\t!defined(CONFIG_ENV_IS_NOWHERE)\n"

abbrev pub env_list_mram : Bytes
env_list_mram =
    codes "\t!defined(CONFIG_ENV_IS_IN_UBI)\t\t&& \\\n"
    ++ codes "\t!defined(CONFIG_ENV_IS_IN_MRAM)\t&& \\\n"
    ++ codes "\t!defined(CONFIG_ENV_IS_NOWHERE)\n"

abbrev pub message : Bytes
message = codes "SATA|SPI_FLASH|NVRAM|MMC|FAT|EXT4|REMOTE|UBI} or CONFIG_ENV_IS_NOWHERE"

abbrev pub message_mram : Bytes
message_mram = codes "SATA|SPI_FLASH|NVRAM|MMC|FAT|EXT4|REMOTE|UBI|MRAM} or CONFIG_ENV_IS_NOWHERE"
