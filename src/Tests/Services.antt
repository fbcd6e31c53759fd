-- ===== src/Tests/Services.antt =====
-- The scripts on the services, on a short configuration.
use radsat_linux.Base.{◌≡◌, refl, true, false, ◌++◌, Bytes, codes}
use radsat_linux.Tools.Text.{starts_with, occurs_in}
use radsat_linux.Tools.Services.Needles
use radsat_linux.Tools.Services.{add_settings}
use radsat_linux.Tools.Services.EnvRegion.{fix_tests}
use radsat_linux.Tools.Services.Settings.{settings, add_settings-fix_tests}

abbrev test_config : Bytes
test_config = codes "image_path = 1\nimage_capacity_bytes = 524288\nspi_mode = 0\n"

has_capacity : occurs_in Needles.capacity_line test_config ≡ true
unfolding occurs_in starts_with
has_capacity = refl

has_no_offset : occurs_in (codes "env_offset") test_config ≡ false
unfolding occurs_in starts_with
has_no_offset = refl

add_settings-fix_tests_example :
    (pre : Bytes) × (post : Bytes) × (add_settings (fix_tests test_config)
      ≡ pre ++ (Needles.capacity_line ++ (settings ++ (settings ++ post))))
add_settings-fix_tests_example = add_settings-fix_tests test_config has_capacity has_no_offset
