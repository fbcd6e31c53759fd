-- ===== src/Mram/Startup.antt =====
-- The init script S79mram-env-sync, as tools/apply-mram-env-region.py writes it: it runs mram_env_sync when Linux starts.
use radsat_linux.Base.{ℕ, Bool, List, [], ◌∷◌, Bytes, codes, if◌then◌else◌}

-- the script's first argument
pub data Action : Type 0 where
  start : Action
  stop : Action
  unknown : Action

abbrev pub sync_arguments : List Bytes
sync_arguments =
    codes "--backend"
    ∷ codes "spidev"
    ∷ codes "--device"
    ∷ codes "/dev/spidev1.0"
    ∷ codes "--out"
    ∷ codes "/envar/uboot.env"
    ∷ []

-- The exit code and the host's files. `prepare` is the mkdir and chmod in front, `sync` a run of mram-env-sync, and
-- `installed` the test on it; its exit code is dropped by `|| true`.
unfoldable pub s79 : {F : Type 0} → (F → F) → (List Bytes → F → ℕ × F) → Bool → Action → F → ℕ × F
s79 prepare sync installed start f =
    if installed then (0, (sync sync_arguments (prepare f)).1) else (0, prepare f)
s79 prepare sync installed stop f = (0, f)
s79 prepare sync installed unknown f = (1, f)
