-- ===== src/Tools/Dual/Needles.antt =====
-- The texts that the edits of tools/gen-dual-uboot-patches.py look for and put in.
use radsat_linux.Base.{Bytes, ◌++◌, codes}

-- the load of the primary image, its fallback, and the lines that follow
abbrev pub spl_load : Bytes
spl_load =
    codes "\terr = spl_load_image_fat(mmc_get_blk_desc(mmc),\n"
    ++ codes "\t\t\t\t CONFIG_SYS_MMCSD_FS_BOOT_PARTITION,\n"
    ++ codes "\t\t\t\t CONFIG_SPL_FS_LOAD_PAYLOAD_NAME);\n"
    ++ codes "\tif (!err)\n"
    ++ codes "\t\treturn err;\n"

abbrev pub spl_fallback : Bytes
spl_fallback =
    codes "\t/* Primary payload bad/missing: try redundant copy on same FAT. */\n"
    ++ codes "\tputs(\"SPL: primary u-boot load failed, trying u-boot-bak.img\\n\");\n"
    ++ codes "\terr = spl_load_image_fat(mmc_get_blk_desc(mmc),\n"
    ++ codes "\t\t\t\t CONFIG_SYS_MMCSD_FS_BOOT_PARTITION,\n"
    ++ codes "\t\t\t\t \"u-boot-bak.img\");\n"
    ++ codes "\tif (!err)\n"
    ++ codes "\t\treturn err;\n"

abbrev pub spl_end : Bytes
spl_end = codes "#endif\n" ++ codes "#endif\n" ++ codes "#ifdef CONFIG_SPL_EXT_SUPPORT\n"

abbrev pub dfu_old : Bytes
dfu_old =
    codes "#define DFU_ALT_INFO_MMC \\\n"
    ++ codes "    \"dfu_alt_info_mmc=\"         \\\n"
    ++ codes "    \"kernel fat 1 1;\"       \\\n"
    ++ codes "    \"rootfs part 1 2;\" \\\n"
    ++ codes "    \"uboot fat 1 1;\" \\\n"
    ++ codes "    \"beaglebone-black.dtb fat 1 1\" \\\n"
    ++ codes "    \"\\0\"\n"

abbrev pub dfu_new : Bytes
dfu_new =
    codes "#define DFU_ALT_INFO_MMC \\\n"
    ++ codes "    \"dfu_alt_info_mmc=\" \\\n"
    ++ codes "    \"kernel fat 0 1;\" \\\n"
    ++ codes "    \"rootfs part 0 2;\" \\\n"
    ++ codes "    \"u-boot.img fat 0 1;\" \\\n"
    ++ codes "    \"u-boot-bak.img fat 0 1;\" \\\n"
    ++ codes "    \"beaglebone-black.dtb fat 0 1\" \\\n"
    ++ codes "    \"\\0\"\n"

abbrev pub helper : Bytes
helper =
    codes "\n"
    ++ codes "/*\n"
    ++ codes " * Map FIT image node names onto dfu_alt_info_mmc entity names (FAT filenames).\n"
    ++ codes " * Strips trailing @unit (kernel@1 -> kernel). Maps uboot* onto u-boot*.img.\n"
    ++ codes " */\n"
    ++ codes "static void kubos_fit_to_dfu_name(const char *fit_name, char *out, size_t outlen)\n"
    ++ codes "{\n"
    ++ codes "\tchar base[64];\n"
    ++ codes "\tconst char *at;\n"
    ++ codes "\tsize_t n;\n"
    ++ codes "\n"
    ++ codes "\tif (!fit_name || !out || outlen == 0)\n"
    ++ codes "\t\treturn;\n"
    ++ codes "\n"
    ++ codes "\tat = strchr(fit_name, '@');\n"
    ++ codes "\tn = at ? (size_t)(at - fit_name) : strlen(fit_name);\n"
    ++ codes "\tif (n >= sizeof(base))\n"
    ++ codes "\t\tn = sizeof(base) - 1;\n"
    ++ codes "\tmemcpy(base, fit_name, n);\n"
    ++ codes "\tbase[n] = '\\0';\n"
    ++ codes "\n"
    ++ codes "\tif (!strcmp(base, \"uboot\"))\n"
    ++ codes "\t\tsnprintf(out, outlen, \"u-boot.img\");\n"
    ++ codes "\telse if (!strcmp(base, \"uboot-bak\"))\n"
    ++ codes "\t\tsnprintf(out, outlen, \"u-boot-bak.img\");\n"
    ++ codes "\telse\n"
    ++ codes "\t\tsnprintf(out, outlen, \"%s\", base);\n"
    ++ codes "}\n"
    ++ codes "\n"

abbrev pub update_needle : Bytes
update_needle = codes "int update_kubos_count(void)\n" ++ codes "{"

abbrev pub write_old : Bytes
write_old =
    codes "        if (fit_image_check_type(fit, noffset,\n"
    ++ codes "                        IH_TYPE_FIRMWARE)) {\n"
    ++ codes "            ret = dfu_tftp_write(fit_image_name, (unsigned int) data_addr,\n"
    ++ codes "                         update_size, \"mmc\", dev_num);\n"

abbrev pub write_new : Bytes
write_new =
    codes "        if (fit_image_check_type(fit, noffset,\n"
    ++ codes "                        IH_TYPE_FIRMWARE)) {\n"
    ++ codes "            char dfu_name[64];\n"
    ++ codes "\n"
    ++ codes "            kubos_fit_to_dfu_name(fit_image_name, dfu_name, sizeof(dfu_name));\n"
    ++ codes "            printf(\" -> DFU '%s'\", dfu_name);\n"
    ++ codes "            ret = dfu_tftp_write(dfu_name, (unsigned int) data_addr,\n"
    ++ codes "                         update_size, \"mmc\", dev_num);\n"

abbrev pub helper_mark : Bytes
helper_mark = codes "kubos_fit_to_dfu_name"
