-- ===== src/Lib.antt =====
-- radsat-linux: the flight software's non-volatile state, and the scripts that build it.
--
-- The Python scripts under tools/ write C and Rust programs, as text, into patches for U-Boot and into the sources
-- of two services; what those programs do is what matters in flight, so both are modelled: the programs that the
-- scripts write, and the work on text that the scripts do.
--
-- The parts, and the files that model them:
--
-- - Fram: mission-policy keys in an I2C FRAM. U-Boot overlays six of them on its environment. Fram/Crc:
--   crc32_fram. Fram/Record: struct fram_key, decode_and_set and the two slots of a key. Fram/Overlay:
--   radsat_fram_overlay_env and the layout checks, Fram/Overlay/First its first version. These are the text of
--   common/fram_mission.c in tools/rewrite-uboot-0006-0007.py (fram_layout_ok and the first version: in
--   tools/gen-mram-fram-uboot-patches.py). Fram/Header: the layout header that fram-service keeps behind the
--   records, in tools/apply-mram-fram-plan.py, with the regions of the memory map (Fram/Header/Regions);
--   Fram/Header/Mount: what the service does with it when it starts, and Fram/Helpers: the script fram-set, both
--   in tools/apply-mram-fram-plan2.py.
-- - Mission: the keys as fram-service's enum MissionKey. Mission/Key is layout v5 of tools/patch-fram-v5-model.py,
--   Mission/Key/Versions the ids before and after tools/apply-fram-layout-v4.py; the forbidden names are from
--   tools/apply-mram-fram-plan.py. Mission/State: MissionState and its set. Mission/Env: the guard of the
--   environment's writers in tools/apply-mram-fram-plan2.py.
-- - Mram: an SPI MRAM whose high end holds U-Boot's environment and whose rest is the file system of mram-service.
--   Mram/Driver: common/env_mram.c, in tools/rewrite-uboot-0006-0007.py, Mram/Driver/First its first version, in
--   tools/gen-mram-fram-uboot-patches.py. Mram/Region, Mram/Subsystem, Mram/Fs, Mram/Schema and Mram/Sync:
--   env_region.rs, subsystem.rs, fs.rs, schema.rs and mram_env_sync.rs, in tools/apply-mram-env-region.py.
--   Mram/Window: PayloadWindowBackend, in tools/apply-mram-fram-plan2.py. Mram/Startup: the init script
--   S79mram-env-sync, which that script writes too. Mram/Mirror puts driver, window, sync and script together.
-- - Tools: the scripts' own work. Tools/Text: must_replace and what the edits use of str. Tools/Tree: edit_tree of
--   tools/rewrite-uboot-0006-0007.py, and Tools/Tree/Patches its main. Tools/Generate: edit_tree of
--   tools/gen-mram-fram-uboot-patches.py, and Tools/Generate/Patches its main. Tools/Diff: newfile_diff, and
--   Tools/Diff/Patch udiff and diff_file of these two scripts. Tools/Whitelist:
--   tools/fix-uboot-whitelist-sorted.py and tools/fix-uboot-whitelist.py. Tools/Model: the run of
--   tools/patch-fram-v5-model.py, and Tools/Recovery: of tools/apply-fram-layout-v4.py. Tools/Dual: the edits of
--   tools/gen-dual-uboot-patches.py and kubos_fit_to_dfu_name, which it adds to U-Boot; Tools/Dual/Patch: its
--   write_patch and main. Tools/Fixes: scripts that repair what an earlier one made; Tools/Fixes/Hunks: six
--   of the scripts that edit a hunk of patch 0006, tools/fix-env-size-spl.py and its successors;
--   Tools/Fixes/UbootPatches: tools/fix-uboot-patches-mram.py; Tools/Fixes/MramBits: tools/fix-mram-bits.py;
--   Tools/Fixes/Nvedit: tools/add-nvedit-mram.py; Tools/Fixes/SizeFirst: tools/fix-envsize3.py. Tools/Services:
--   the scripts that fix single places of the services, their tests and sync-and-build-image.sh;
--   Tools/Services/EnvRegion: the edits of main of tools/apply-mram-env-region.py. Tools/Plan: the edits of main
--   of tools/apply-mram-fram-plan.py, and Tools/Plan/Second: of tools/apply-mram-fram-plan2.py.
-- - Base: names, tests and lemmas that the parts share. Tests: runs at concrete inputs.
--
-- How the parts interact: U-Boot reads the environment with Mram/Driver and then overlays it with Fram/Overlay;
-- fram-service writes the records and the header that U-Boot reads (Fram/Header/Mount puts both sides together);
-- mram-service serves the same chip as Mram/Driver, and its window keeps it below the environment; Mram/Sync
-- copies the environment to a file under Linux.
--
-- How state is modelled: a C or Rust function takes the state of the device and gives it back with its result;
-- messages and changes of the environment are lists of events; an error is a value. Integers are natural numbers
-- with the wrap-around of their type written out. A text is the list of its code points. What is not in the
-- repository is an argument: the I2C and SPI layers, env_import, EXT4, the storage behind the services, littlefs,
-- the host's files, the runs of tar, patch and diff. Laws on these (IsMram, IsStorage, IsArray, IsWindowed,
-- IsMemory, IsShared, HasHead, Applies) say what the chip, the drivers and the programs document; the tests give an
-- instance of each.
--
-- Bounds and fuel: decimal_digits runs on fuel, 20 for a 64-bit number, which has at most 20 digits, and n + 1 for
-- str n; the marker loop of tools/fix-mram-bits.py runs on one more than the length of the text. Every other loop
-- is recursion on a list or a counter.
--
-- Not modelled: the arms of MissionState::set that the scripts do not show, fram-get, and what littlefs does
-- behind its operations on files.
pub mod Base
pub mod Fram
pub mod Mission
pub mod Mram
pub mod Tools
pub mod Tests
