-- ===== src/Tools/Generate/Heads.antt =====
-- The heads of the two patches in tools/gen-mram-fram-uboot-patches.py.
use radsat_linux.Base.{Bytes, ◌++◌, codes}

abbrev pub mram_head : Bytes
mram_head =
    codes "From 0000000000000000000000000000000000000000 Mon Sep 17 00:00:00 2001\n"
    ++ codes "From: Radsat Developers <dev@radsat.local>\n"
    ++ codes "Date: Fri, 30 Oct 2026 18:00:00 -0600\n"
    ++ codes "Subject: [PATCH] arm: bbb: load/save U-Boot env from SPI MRAM\n"
    ++ codes "\n"
    ++ codes "Store the classic env blob in the high 0x2800 bytes of McSPI2 MRAM\n"
    ++ codes "(Linux spidev1.0). Fall back to EXT4 /uboot.env, then compiled-in\n"
    ++ codes "Kubos defaults (CONFIG_EXTRA_ENV_SETTINGS mmcboot/distro_bootcmd).\n"
    ++ codes "\n"
    ++ codes "---\n"

abbrev pub fram_head : Bytes
fram_head =
    codes "From 0000000000000000000000000000000000000000 Mon Sep 17 00:00:00 2001\n"
    ++ codes "From: Radsat Developers <dev@radsat.local>\n"
    ++ codes "Date: Fri, 30 Oct 2026 18:10:00 -0600\n"
    ++ codes "Subject: [PATCH] arm: bbb: overlay FRAM mission policy keys after env\n"
    ++ codes "\n"
    ++ codes "Read allowlisted mission keys from I2C2 FRAM @ 0x50 after env relocate.\n"
    ++ codes "Fail-open on bad layout magic / boot CRC / I2C errors. Never set bootcmd.\n"
    ++ codes "\n"
    ++ codes "---\n"
