-- ===== src/Tools/Fixes/SizeFirst/Needles.antt =====
-- The texts of tools/fix-envsize3.py.
use radsat_linux.Base.{Bytes, ◌++◌, codes}

abbrev pub spl_comment : Bytes
spl_comment = codes "+/* SPL has no SPI MRAM env driver; U-Boot proper owns MRAM/FRAM. */\n"

abbrev pub size_and_comment : Bytes
size_and_comment =
    codes "+#define CONFIG_ENV_SIZE\t\t\t(10 * 1024)\n"
    ++ codes "+/* SPL has no SPI MRAM env driver; U-Boot proper owns MRAM/FRAM. */\n"
