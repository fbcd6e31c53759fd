-- ===== src/Tools/Plan/Second/Needles.antt =====
-- The texts of tools/apply-mram-fram-plan2.py that are looked for and put in.
use radsat_linux.Base.{Bytes, ◌++◌, codes}

abbrev pub mount_line : Bytes
mount_line =
    codes "        let fram = FramStorage::mount(storage).map_err(|err| err.to_string())?;\n"

abbrev pub mount_lines : Bytes
mount_lines =
    codes "        let mut fram = FramStorage::mount(storage).map_err(|err| err.to_string())?;\n"
    ++ codes "        // Layout magic is advisory; never brick boot if FRAM is blank/corrupt.\n"
    ++ codes "        if let Err(err) = fram.ensure_layout_header() {\n"
    ++ codes "            eprintln!(\"fram-service: layout header write skipped: {err}\");\n"
    ++ codes "        }\n"

abbrev pub env_imports : Bytes
env_imports = codes "use std::collections::HashMap;\n" ++ codes "use std::process::Command;\n"

abbrev pub env_imports_model : Bytes
env_imports_model =
    codes "use std::collections::HashMap;\n"
    ++ codes "use std::process::Command;\n"
    ++ codes "\n"
    ++ codes "use crate::model::MissionKey;\n"

abbrev pub command_write : Bytes
command_write =
    codes "    fn write(&mut self, name: &str, value: Option<&str>) -> Result<(), String> {\n"
    ++ codes "        let mut command = Command::new(&self.setenv_path);\n"

abbrev pub command_guarded : Bytes
command_guarded =
    codes "    fn write(&mut self, name: &str, value: Option<&str>) -> Result<(), String> {\n"
    ++ codes "        if MissionKey::is_forbidden_boot_env_name(name) {\n"
    ++ codes "            return Err(format!(\n"
    ++ codes "                \"refusing to mirror forbidden boot env name `{name}` from FRAM\"\n"
    ++ codes "            ));\n"
    ++ codes "        }\n"
    ++ codes "        let mut command = Command::new(&self.setenv_path);\n"

abbrev pub memory_write : Bytes
memory_write =
    codes "    fn write(&mut self, name: &str, value: Option<&str>) -> Result<(), String> {\n"
    ++ codes "        match value {\n"

abbrev pub memory_guarded : Bytes
memory_guarded =
    codes "    fn write(&mut self, name: &str, value: Option<&str>) -> Result<(), String> {\n"
    ++ codes "        if MissionKey::is_forbidden_boot_env_name(name) {\n"
    ++ codes "            return Err(format!(\n"
    ++ codes "                \"refusing to mirror forbidden boot env name `{name}` from FRAM\"\n"
    ++ codes "            ));\n"
    ++ codes "        }\n"
    ++ codes "        match value {\n"

abbrev pub boot_flow : Bytes
boot_flow =
    codes "The intended boot flow is:\n"
    ++ codes "\n"
    ++ codes "1. Set system time from the RTC.\n"
    ++ codes "2. `fram-service` auto-runs a **one-shot** reconcile on start when the FRAM boot\n"
    ++ codes "   policy region is empty (first boot / blank chip). Seed values come from the\n"
    ++ codes "   U-Boot env on the boot media (`fw_printenv`). Once any boot-policy record\n"
    ++ codes "   exists, later service restarts skip this; use `reconcileMissionState` only\n"
    ++ codes "   when you want an explicit sync. Disable with `reconcile_on_start = false`.\n"
    ++ codes "3. Read `missionState`.\n"
    ++ codes "4. Run deployment logic from the reconciled state.\n"
    ++ codes "5. Set completion flags through `setMissionFlag` or `setFlag`.\n"

abbrev pub boot_flow_mram : Bytes
boot_flow_mram =
    codes "The intended boot flow is:\n"
    ++ codes "\n"
    ++ codes
        "1. U-Boot loads the classic env blob from **SPI MRAM** (with EXT4 `/envar` fallback).\n"
    ++ codes "2. U-Boot overlays **mission/boot-policy keys only** from I2C2 FRAM (`0x50`) when\n"
    ++ codes "   the layout magic and boot-region CRC are valid. FRAM never supplies `bootcmd`,\n"
    ++ codes "   `bootargs`, DFU alts, or root/PARTUUID. Bad CRC / I2C failure is fail-open.\n"
    ++ codes "3. Linux `S79mram-env-sync` mirrors a CRC-valid MRAM env blob to `/envar/uboot.env`\n"
    ++ codes "   so `fw_printenv` / `fw_setenv` keep working.\n"
    ++ codes "4. Set system time from the RTC.\n"
    ++ codes "5. `fram-service` auto-runs a **one-shot** reconcile on start when the FRAM boot\n"
    ++ codes "   policy region is empty (first boot / blank chip). Seed values come from the\n"
    ++ codes "   U-Boot env mirror (`fw_printenv`). Mutations default to `mirrorToEnv: false`\n"
    ++ codes "   once MRAM owns classic env; pass `mirrorToEnv: true` only for allowlisted\n"
    ++ codes "   mission key names. Disable startup reconcile with `reconcile_on_start = false`.\n"
    ++ codes "6. Read `missionState` / run deployment logic / set completion flags via GraphQL.\n"
    ++ codes "\n"
    ++ codes "### Writing FRAM variables (do not use raw `i2cset`)\n"
    ++ codes "\n"
    ++ codes "```sh\n"
    ++ codes "# helpers (serial-friendly)\n"
    ++ codes "fram-get\n"
    ++ codes "fram-get fsoo_timer\n"
    ++ codes "fram-set fsoo_timer 42\n"
    ++ codes "fram-set deployed true\n"
    ++ codes "\n"
    ++ codes "# or GraphQL directly on port 8091\n"
    ++ codes "curl -s http://127.0.0.1:8091/ -H 'Content-Type: application/json' \\\n"
    ++ codes "  -d '{\"query\":\"{ missionState { removeBeforeFlight deployed fsooTimer } }\"}'\n"
    ++ codes "\n"
    ++ codes "curl -s http://127.0.0.1:8091/ -H 'Content-Type: application/json' \\\n"
    ++ codes
        "  -d '{\"query\":\"mutation { setFlag(name:\\\"fsoo_timer\\\", intValue:42, mirrorToEnv:false) { success errors } }\"}'\n"
    ++ codes "```\n"
    ++ codes "\n"
    ++ codes "A fixed **layout magic/version** header lives at offset `0x0800` (`LAYOUT_MAGIC` /\n"
    ++ codes "`LAYOUT_VERSION`) so a wrong image is not mistaken for valid policy.\n"

abbrev pub top_of_fram : Bytes
top_of_fram =
    codes "Boot-critical U-Boot/mission variables sit at the top of FRAM so early boot\n"
    ++ codes "only needs the first 384 bytes."

abbrev pub policy_keys : Bytes
policy_keys =
    codes "Mission / boot-**policy** keys sit at the top of FRAM so U-Boot only overlays\n"
    ++ codes "allowlisted names (never classic bootcmd). First 384 bytes + checksum trailer."

abbrev pub enum_head : Bytes
enum_head = codes "pub enum BackendError {\n"

abbrev pub enum_invalid : Bytes
enum_invalid =
    codes "pub enum BackendError {\n"
    ++ codes "    #[error(\"{0}\")]\n"
    ++ codes "    InvalidConfig(String),\n"
