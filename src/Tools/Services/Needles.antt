-- ===== src/Tools/Services/Needles.antt =====
-- The texts that the scripts look for in the services' tests and in sync-and-build-image.sh, and put in.
use radsat_linux.Base.{Bytes, ◌++◌, codes}

abbrev pub capacity_line : Bytes
capacity_line = codes "image_capacity_bytes = 524288\n"

abbrev pub capacity_lines : Bytes
capacity_lines =
    codes "image_capacity_bytes = 524288\n"
    ++ codes "env_offset = 514048\n"
    ++ codes "env_size = 10240\n"

abbrev pub storage_assert : Bytes
storage_assert = codes "assert_eq!(storage[\"capacityBytes\"], 524288)"

abbrev pub payload_assert : Bytes
payload_assert = codes "assert_eq!(storage[\"capacityBytes\"], 514048)"

abbrev pub sync_0005 : Bytes
sync_0005 = codes "sync_one common/patches/uboot/0005-bbb-dfu-dual-uboot.patch\n"

abbrev pub sync_0007 : Bytes
sync_0007 =
    codes "sync_one common/patches/uboot/0005-bbb-dfu-dual-uboot.patch\n"
    ++ codes "sync_one common/patches/uboot/0006-bbb-env-on-spi-mram.patch\n"
    ++ codes "sync_one common/patches/uboot/0007-bbb-fram-mission-policy.patch\n"

abbrev pub sync_install_os : Bytes
sync_install_os = codes "sync_one board/kubos/beaglebone-black/overlay/usr/sbin/install-os\n"

abbrev pub sync_s79 : Bytes
sync_s79 =
    codes "sync_one board/kubos/beaglebone-black/overlay/usr/sbin/install-os\n"
    ++ codes "sync_one board/kubos/beaglebone-black/overlay/usr/sbin/fram-get\n"
    ++ codes "sync_one board/kubos/beaglebone-black/overlay/usr/sbin/fram-set\n"
    ++ codes "sync_one board/kubos/beaglebone-black/overlay/etc/init.d/S79mram-env-sync\n"

abbrev pub chmod_install_os : Bytes
chmod_install_os =
    codes "chmod +x \"$DST/board/kubos/beaglebone-black/overlay/usr/sbin/install-os\"\n"

abbrev pub chmod_s79 : Bytes
chmod_s79 =
    codes "chmod +x \"$DST/board/kubos/beaglebone-black/overlay/usr/sbin/install-os\"\n"
    ++ codes "chmod +x \"$DST/board/kubos/beaglebone-black/overlay/usr/sbin/fram-get\"\n"
    ++ codes "chmod +x \"$DST/board/kubos/beaglebone-black/overlay/usr/sbin/fram-set\"\n"
    ++ codes "chmod +x \"$DST/board/kubos/beaglebone-black/overlay/etc/init.d/S79mram-env-sync\"\n"

abbrev pub force_off : Bytes
force_off =
    codes "if [[ \"${FORCE_KUBOS:-0}\" == \"1\" ]]; then\n"
    ++ codes "  make O=\"$OUT\" kubos-dirclean || true\n"
    ++ codes "  make O=\"$OUT\" kubos-fram-dirclean || true\n"
    ++ codes "fi\n"

abbrev pub force_on : Bytes
force_on =
    codes "if [[ \"${FORCE_KUBOS:-1}\" == \"1\" ]]; then\n"
    ++ codes "  make O=\"$OUT\" kubos-dirclean || true\n"
    ++ codes "  make O=\"$OUT\" kubos-fram-dirclean || true\n"
    ++ codes "  make O=\"$OUT\" kubos-mram-dirclean || true\n"
    ++ codes "fi\n"

abbrev pub install_mram : Bytes
install_mram =
    codes "install -D -m 0755 \"$DST/package/kubos/kubos-mram/kubos-mram\" \\\n"
    ++ codes "  \"$OUT/target/etc/init.d/S91kubos-mram\"\n"
    ++ codes
        "rm -f \"$OUT/target/etc/init.d/S90kubos-fram\" \"$OUT/target/etc/init.d/S90kubos-mram\"\n"

abbrev pub install_s79 : Bytes
install_s79 =
    codes "install -D -m 0755 \"$DST/package/kubos/kubos-mram/kubos-mram\" \\\n"
    ++ codes "  \"$OUT/target/etc/init.d/S91kubos-mram\"\n"
    ++ codes
        "install -D -m 0755 \"$DST/board/kubos/beaglebone-black/overlay/etc/init.d/S79mram-env-sync\" \\\n"
    ++ codes "  \"$OUT/target/etc/init.d/S79mram-env-sync\"\n"
    ++ codes
        "install -D -m 0755 \"$DST/board/kubos/beaglebone-black/overlay/usr/sbin/fram-get\" \\\n"
    ++ codes "  \"$OUT/target/usr/sbin/fram-get\"\n"
    ++ codes
        "install -D -m 0755 \"$DST/board/kubos/beaglebone-black/overlay/usr/sbin/fram-set\" \\\n"
    ++ codes "  \"$OUT/target/usr/sbin/fram-set\"\n"
    ++ codes
        "rm -f \"$OUT/target/etc/init.d/S90kubos-fram\" \"$OUT/target/etc/init.d/S90kubos-mram\"\n"

abbrev pub sync_fram_set : Bytes
sync_fram_set = codes "sync_one board/kubos/beaglebone-black/overlay/usr/sbin/fram-set\n"

abbrev pub sync_verify : Bytes
sync_verify =
    codes "sync_one board/kubos/beaglebone-black/overlay/usr/sbin/fram-set\n"
    ++ codes "sync_one board/kubos/beaglebone-black/overlay/usr/sbin/verify-mram-fram-boot\n"

abbrev pub chmod_fram_set : Bytes
chmod_fram_set = codes "chmod +x \"$DST/board/kubos/beaglebone-black/overlay/usr/sbin/fram-set\"\n"

abbrev pub chmod_verify : Bytes
chmod_verify =
    codes "chmod +x \"$DST/board/kubos/beaglebone-black/overlay/usr/sbin/fram-set\"\n"
    ++ codes
        "chmod +x \"$DST/board/kubos/beaglebone-black/overlay/usr/sbin/verify-mram-fram-boot\"\n"

abbrev pub install_fram_set : Bytes
install_fram_set =
    codes "install -D -m 0755 \"$DST/board/kubos/beaglebone-black/overlay/usr/sbin/fram-set\" \\\n"
    ++ codes "  \"$OUT/target/usr/sbin/fram-set\"\n"

abbrev pub install_verify : Bytes
install_verify =
    codes "install -D -m 0755 \"$DST/board/kubos/beaglebone-black/overlay/usr/sbin/fram-set\" \\\n"
    ++ codes "  \"$OUT/target/usr/sbin/fram-set\"\n"
    ++ codes
        "install -D -m 0755 \"$DST/board/kubos/beaglebone-black/overlay/usr/sbin/verify-mram-fram-boot\" \\\n"
    ++ codes "  \"$OUT/target/usr/sbin/verify-mram-fram-boot\"\n"

abbrev pub two_configs : Bytes
two_configs =
    codes "pub enum BackendError {\n"
    ++ codes "    #[error(\"{0}\")]\n"
    ++ codes "    InvalidConfig(String),\n"
    ++ codes "    #[error(\"I/O error: {0}\")]\n"
    ++ codes "    Io(#[from] std::io::Error),\n"
    ++ codes "    #[error(\"invalid backend config: {0}\")]\n"
    ++ codes "    InvalidConfig(String),\n"

abbrev pub one_config : Bytes
one_config =
    codes "pub enum BackendError {\n"
    ++ codes "    #[error(\"I/O error: {0}\")]\n"
    ++ codes "    Io(#[from] std::io::Error),\n"
    ++ codes "    #[error(\"invalid backend config: {0}\")]\n"
    ++ codes "    InvalidConfig(String),\n"

abbrev pub data_storage_assert : Bytes
data_storage_assert = codes "assert_eq!(data[\"storage\"][\"capacityBytes\"], 524_288);"

abbrev pub data_payload_assert : Bytes
data_payload_assert = codes "assert_eq!(data[\"storage\"][\"capacityBytes\"], 514_048);"

abbrev pub map_query : Bytes
map_query =
    codes "            memoryMap {\n"
    ++ codes "                capacityBytes\n"
    ++ codes "                missionRegionStart\n"
    ++ codes "                missionRegionEnd\n"
    ++ codes "                freeRegionStart\n"
    ++ codes "                freeRegionEnd\n"
    ++ codes "                regions { name startOffset endOffset sizeBytes }\n"

abbrev pub map_query_layout : Bytes
map_query_layout =
    codes "            memoryMap {\n"
    ++ codes "                capacityBytes\n"
    ++ codes "                layoutMagic\n"
    ++ codes "                layoutVersion\n"
    ++ codes "                missionRegionStart\n"
    ++ codes "                missionRegionEnd\n"
    ++ codes "                freeRegionStart\n"
    ++ codes "                freeRegionEnd\n"
    ++ codes "                regions { name startOffset endOffset sizeBytes }\n"

abbrev pub map_assert : Bytes
map_assert =
    codes "    assert_eq!(map[\"capacityBytes\"], 8192);\n"
    ++ codes "    assert_eq!(map[\"missionRegionStart\"], 0);\n"

abbrev pub map_assert_layout : Bytes
map_assert_layout =
    codes "    assert_eq!(map[\"capacityBytes\"], 8192);\n"
    ++ codes "    assert_eq!(map[\"layoutMagic\"], 0x4D_41_52_46i64);\n"
    ++ codes "    assert_eq!(map[\"layoutVersion\"], 4);\n"
    ++ codes "    assert_eq!(map[\"missionRegionStart\"], 0);\n"
