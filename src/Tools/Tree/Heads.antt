-- ===== src/Tools/Tree/Heads.antt =====
-- The heads of the two patches in tools/rewrite-uboot-0006-0007.py.
use radsat_linux.Base.{Bytes, ◌++◌, codes}

abbrev pub mram_head : Bytes
mram_head =
    codes "From 0000000000000000000000000000000000000000 Mon Sep 17 00:00:00 2001\n"
    ++ codes "From: Radsat Developers <dev@radsat.local>\n"
    ++ codes "Date: Fri, 30 Oct 2026 18:00:00 -0600\n"
    ++ codes "Subject: [PATCH] arm: bbb: load/save U-Boot env from SPI MRAM\n"
    ++ codes "\n"
    ++ codes "Store the classic env blob in the high 0x2800 bytes of McSPI2 MRAM\n"
    ++ codes "(Linux spidev1.0). Fall back to EXT4 /uboot.env, then defaults.\n"
    ++ codes "\n"
    ++ codes "---\n"

abbrev pub fram_head : Bytes
fram_head =
    codes "From 0000000000000000000000000000000000000000 Mon Sep 17 00:00:00 2001\n"
    ++ codes "From: Radsat Developers <dev@radsat.local>\n"
    ++ codes "Date: Fri, 30 Oct 2026 18:10:00 -0600\n"
    ++ codes "Subject: [PATCH] arm: bbb: overlay FRAM mission policy keys after env\n"
    ++ codes "\n"
    ++ codes "Read allowlisted mission keys from I2C2 FRAM @ 0x50. Fail-open on bad\n"
    ++ codes "layout/CRC/I2C. Never set bootcmd.\n"
    ++ codes "\n"
    ++ codes "---\n"
