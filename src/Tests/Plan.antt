-- ===== src/Tests/Plan.antt =====
-- The edits of the sources of the services, on files that have what the scripts look for.
use radsat_linux.Base.{◌≡◌, refl, true, false, ◌||◌, ◌++◌, some, Bytes, codes}
use radsat_linux.Tools.Text.{starts_with, occurs_in}
use radsat_linux.Tools.Services.{fix_backend_enum}
use radsat_linux.Tools.Services.Needles as Enum
use radsat_linux.Tools.Plan.{Services}
use radsat_linux.Tools.Plan
use radsat_linux.Tools.Plan.Layout
use radsat_linux.Tools.Plan.Model
use radsat_linux.Tools.Plan.Kept.{main-Kept}
use radsat_linux.Tools.Plan.Second
use radsat_linux.Tools.Plan.Second.{patch_mram_backend_window}
use radsat_linux.Tools.Plan.Second.Needles
use radsat_linux.Tools.Plan.Second.Window.{window}
use radsat_linux.Tools.Plan.Second.Variant.{backend_variant-repaired}

abbrev sources : Services
sources = record {
  layout_rs =
      Layout.region_end ++ Layout.verify_checksum ++ Layout.map_without_header
      ++ Layout.checksum_test;
  model_rs = Model.mirrors_to_env ++ Model.memory_map;
  schema_rs = codes "let mirror = mirror_to_env.unwrap_or(true);\n";
  subsystem_rs = Needles.mount_line;
  env_rs = Needles.env_imports ++ Needles.command_write ++ Needles.memory_write;
  readme_md = codes "# fram-service\n";
  backend_rs = Enum.one_config ++ codes "}\n";
}

main-Kept_example :
    ((Plan.main sources).0.subsystem_rs ≡ Needles.mount_line)
    × ((Plan.main sources).0.env_rs
        ≡ Needles.env_imports ++ Needles.command_write ++ Needles.memory_write)
main-Kept_example = main-Kept sources

abbrev imports : Bytes
imports = codes "use std::io;\n\n"

abbrev rest : Bytes
rest = codes "}\n"

no_window :
    (occurs_in (codes "struct PayloadWindow") (imports ++ (Enum.one_config ++ rest))
        || occurs_in (codes "PayloadWindowBackend") (imports ++ (Enum.one_config ++ rest))
      ≡ false)
unfolding occurs_in starts_with
no_window = refl

first_head : occurs_in Needles.enum_head (imports ++ codes "pub enum BackendError {") ≡ false
unfolding occurs_in starts_with
first_head = refl

first_name :
    occurs_in (codes "enum BackendError") (imports ++ codes "pub " ++ codes "enum BackendErro")
    ≡ false
unfolding occurs_in starts_with
first_name = refl

backend_variant-repaired_example :
    (patch_mram_backend_window (imports ++ (Enum.one_config ++ rest))
      ≡ (imports ++ (Enum.two_configs ++ (rest ++ window)), true))
    × (fix_backend_enum (imports ++ (Enum.two_configs ++ (rest ++ window)))
        ≡ some ((imports ++ (Enum.one_config ++ rest)) ++ window))
backend_variant-repaired_example =
    backend_variant-repaired imports rest no_window first_head first_name
