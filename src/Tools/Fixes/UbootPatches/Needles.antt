-- ===== src/Tools/Fixes/UbootPatches/Needles.antt =====
-- The texts of tools/fix-uboot-patches-mram.py.
use radsat_linux.Base.{Bytes, ◌++◌, codes}

abbrev pub skip_missing : Bytes
skip_missing =
    codes "+\tif (!fram_layout_ok()) {\n"
    ++ codes "+\t\tputs(\"FRAM: layout magic/version missing; skipping mission overlay\\n\");\n"
    ++ codes "+\t\tgoto out;\n"
    ++ codes "+\t}\n"

abbrev pub skip_mismatch : Bytes
skip_mismatch =
    codes "+\t/* Wrong magic/version => refuse. Missing header => allow (migration). */\n"
    ++ codes "+\tif (fram_layout_present_invalid()) {\n"
    ++ codes "+\t\tputs(\"FRAM: layout magic/version mismatch; skipping mission overlay\\n\");\n"
    ++ codes "+\t\tgoto out;\n"
    ++ codes "+\t}\n"

abbrev pub layout_ok : Bytes
layout_ok =
    codes "+static int fram_layout_ok(void)\n"
    ++ codes "+{\n"
    ++ codes "+\tu8 hdr[16];\n"
    ++ codes "+\tu32 magic;\n"
    ++ codes "+\tu16 ver;\n"
    ++ codes "+\n"
    ++ codes "+\tif (fram_read(FRAM_LAYOUT_OFFSET, hdr, sizeof(hdr)))\n"
    ++ codes "+\t\treturn 0;\n"
    ++ codes "+\tmagic = hdr[0] | (hdr[1] << 8) | (hdr[2] << 16) | (hdr[3] << 24);\n"
    ++ codes "+\tver = hdr[4] | (hdr[5] << 8);\n"
    ++ codes "+\treturn magic == FRAM_LAYOUT_MAGIC && ver == FRAM_LAYOUT_VERSION;\n"
    ++ codes "+}\n"

abbrev pub present_invalid : Bytes
present_invalid =
    codes "+/* Returns 1 when a non-blank header exists but does not match. */\n"
    ++ codes "+static int fram_layout_present_invalid(void)\n"
    ++ codes "+{\n"
    ++ codes "+\tu8 hdr[16];\n"
    ++ codes "+\tu32 magic;\n"
    ++ codes "+\tu16 ver;\n"
    ++ codes "+\tint i, blank = 1;\n"
    ++ codes "+\n"
    ++ codes "+\tif (fram_read(FRAM_LAYOUT_OFFSET, hdr, sizeof(hdr)))\n"
    ++ codes "+\t\treturn 0;\n"
    ++ codes "+\tfor (i = 0; i < 16; i++) {\n"
    ++ codes "+\t\tif (hdr[i] != 0x00 && hdr[i] != 0xff)\n"
    ++ codes "+\t\t\tblank = 0;\n"
    ++ codes "+\t}\n"
    ++ codes "+\tif (blank)\n"
    ++ codes "+\t\treturn 0;\n"
    ++ codes "+\tmagic = hdr[0] | (hdr[1] << 8) | (hdr[2] << 16) | (hdr[3] << 24);\n"
    ++ codes "+\tver = hdr[4] | (hdr[5] << 8);\n"
    ++ codes "+\treturn !(magic == FRAM_LAYOUT_MAGIC && ver == FRAM_LAYOUT_VERSION);\n"
    ++ codes "+}\n"

abbrev pub xfer_two_buffers : Bytes
xfer_two_buffers =
    codes "+static int mram_xfer(struct spi_slave *slave, const void *dout, void *din,\n"
    ++ codes "+\t\t     unsigned int len)\n"
    ++ codes "+{\n"
    ++ codes "+\tint ret;\n"
    ++ codes "+\n"
    ++ codes "+\tret = spi_claim_bus(slave);\n"
    ++ codes "+\tif (ret)\n"
    ++ codes "+\t\treturn ret;\n"
    ++ codes "+\tret = spi_xfer(slave, len * 8, dout, din,\n"
    ++ codes "+\t\t       SPI_XFER_BEGIN | SPI_XFER_END);\n"
    ++ codes "+\tspi_release_bus(slave);\n"
    ++ codes "+\treturn ret;\n"
    ++ codes "+}\n"

abbrev pub xfer_one_buffer : Bytes
xfer_one_buffer =
    codes "+static int mram_xfer(struct spi_slave *slave, void *buf, unsigned int len)\n"
    ++ codes "+{\n"
    ++ codes "+\tint ret;\n"
    ++ codes "+\n"
    ++ codes "+\tret = spi_claim_bus(slave);\n"
    ++ codes "+\tif (ret)\n"
    ++ codes "+\t\treturn ret;\n"
    ++ codes "+\tret = spi_xfer(slave, len * 8, buf, buf,\n"
    ++ codes "+\t\t       SPI_XFER_BEGIN | SPI_XFER_END);\n"
    ++ codes "+\tspi_release_bus(slave);\n"
    ++ codes "+\treturn ret;\n"
    ++ codes "+}\n"

abbrev pub read_call : Bytes
read_call = codes "+\tret = mram_xfer(slave, frame, frame, 4 + len);\n"

abbrev pub read_call_one_buffer : Bytes
read_call_one_buffer = codes "+\tret = mram_xfer(slave, frame, 4 + len);\n"

abbrev pub wren_call : Bytes
wren_call = codes "+\tret = mram_xfer(slave, &wren, NULL, 1);\n"

abbrev pub wren_call_one_buffer : Bytes
wren_call_one_buffer = codes "+\tret = mram_xfer(slave, &wren, 1);\n"

abbrev pub write_call : Bytes
write_call = codes "+\tret = mram_xfer(slave, frame, NULL, 4 + len);\n"

abbrev pub write_call_one_buffer : Bytes
write_call_one_buffer = codes "+\tret = mram_xfer(slave, frame, 4 + len);\n"
