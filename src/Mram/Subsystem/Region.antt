-- ===== src/Mram/Subsystem/Region.antt =====
-- A subsystem that starts has its environment at the high end of the chip, and its window below it.
use radsat_linux.Base.{
  ℕ, ◌+◌, ◌^◌, ◌<◌, ◌≤◌, ◌≡◌, ◌≢◌, refl, Option, none, some, Bytes, arith, ◌↔◌, subst, ap, sym, ◌∙◌,
}
use radsat_linux.Base.Int.{ℤ, pos, negsuc}
use radsat_linux.Base.Result.{Result, ok, err, ◌>>=◌}
use radsat_linux.Mram.Region.{uboot_env_size, uboot_env_offset, payload_capacity_bytes}
use radsat_linux.Mram.Fs.{FsError, mount}
use radsat_linux.Mram.Window
use radsat_linux.Mram.Window.{ByteStorage, PayloadWindow, BackendError, checked_add, check_bounds}
use radsat_linux.Mram.Window.Guard.{check_bounds_lem}
use radsat_linux.Mram.Subsystem.{
  Config, ConfigError, env_offset_mismatch, window_failed, mount_failed, Subsystem, u32_or, map_err,
  check_region, start, from_config, ensure_payload_range,
}

bind_inv :
    {E A B : Type 0} (m : Result E A) (f : A → Result E B) {b : B}
    → (m >>= f) ≡ ok b
    → (a : A) × (m ≡ ok a) × (f a ≡ ok b)
bind_inv (ok a) f h = (a, refl, h)
bind_inv (err e) f h = cc

map_err_inv : {A E F : Type 0} (f : E → F) (r : Result E A) {a : A} → map_err f r ≡ ok a → r ≡ ok a
map_err_inv f (ok a) h = cc
map_err_inv f (err e) h = cc

ok_inj : {E A : Type 0} {a b : A} → ◌≡◌ {A = Result E A} (ok a) (ok b) → a ≡ b
ok_inj h = cc

-- The tests on the region pass exactly if it is not empty and ends with the chip: u32 wrap-around
-- opens no gap, and the third test never fails behind the second.
pub check_region_iff :
    (capacity_bytes env_offset env_size capacity : ℕ)
    → env_offset < 2 ^ 32
    → env_size < 2 ^ 32
    → capacity < 2 ^ 32
    → ((check_region capacity_bytes env_offset env_size capacity ≡ ok tt)
        ↔ ((env_size ≢ 0) × (env_offset + env_size ≡ capacity)))
      × (check_region capacity_bytes env_offset env_size capacity ≢ err env_offset_mismatch)
unfolding check_region
check_region_iff capacity_bytes env_offset env_size capacity ho hs hc =
    ((λ h. ground arith, λ h. ground arith), λ h. ground arith)

unwrap_lt : (o : Option ℤ) (d : ℕ) → d < 2 ^ 32 → u32_or o d < 2 ^ 32
unwrap_lt none d h = h
unwrap_lt (some (pos n)) d h = omega arith
unwrap_lt (some (negsuc n)) d h = omega arith

module _ {S F : Type 0} (storage : ByteStorage S) (capacity_bytes : ℕ)
    (file_image : Bytes → ℕ → Result BackendError S)
    (spidev : Option (Bytes → ℕ → ℕ → Result BackendError S))
    (mount_volume : PayloadWindow S → Result FsError F) where
  new_inv :
      (s : S) (n : ℕ) {w : PayloadWindow S}
      → Window.new storage s n ≡ ok w
      → (n ≢ 0) × (w ≡ record { inner = s; payload_capacity = n })
  unfolding Window.new
  new_inv s n h = ground arith

  mount_inv :
      (w : PayloadWindow S) (fs : F)
      → mount capacity_bytes mount_volume w ≡ ok fs
      → (w.payload_capacity ≡ payload_capacity_bytes capacity_bytes) × (mount_volume w ≡ ok fs)
  unfolding mount
  mount_inv w fs h = ground arith

  abbrev pub IsStarted : Subsystem S F → Type 0
  IsStarted sub =
      (sub.env_size ≢ 0)
      × (sub.env_offset ≡ payload_capacity_bytes capacity_bytes)
      × (sub.env_offset + sub.env_size ≡ storage.capacity sub.device)
      × ((w : PayloadWindow S) × (mount_volume w ≡ ok sub.fs)
          × (w.inner ≡ sub.device)
          × (w.payload_capacity ≡ sub.env_offset)
          × (w.payload_capacity ≢ 0))

  start-IsStarted :
      (opened : Result ConfigError S) (name : Bytes) (env_offset env_size : ℕ) (sub : Subsystem S F)
      → env_offset < 2 ^ 32
      → env_size < 2 ^ 32
      → ((s : S) → storage.capacity s < 2 ^ 32)
      → start storage capacity_bytes file_image spidev mount_volume opened name env_offset env_size
        ≡ ok sub
      → IsStarted sub
  unfolding start
  start-IsStarted (err e) name env_offset env_size sub ho hz hs h = cc
  start-IsStarted (ok device) name env_offset env_size sub ho hz hs h =
      let (u, e2, h2) =
        bind_inv (check_region capacity_bytes env_offset env_size (storage.capacity device)) _ h in
      let (w, e4, h4) =
        bind_inv (map_err window_failed (Window.new storage device env_offset)) _ h2 in
      let (fs, e5, h5) =
        bind_inv (map_err mount_failed (mount capacity_bytes mount_volume w)) _ h4 in
      let region =
        (check_region_iff capacity_bytes env_offset env_size (storage.capacity device) ho hz
          (hs device)).0.0 in
      let (nonzero, window) = new_inv device env_offset (map_err_inv window_failed _ e4) in
      let (region_nonzero, region_end) = region e2 in
      let (fixed, mounted) = mount_inv w fs (map_err_inv mount_failed _ e5) in
      let at_offset = ap (λ v. v.payload_capacity) window in
      let is_sub = ok_inj h5 in
      subst IsStarted is_sub (
        region_nonzero,
        sym at_offset ∙ fixed,
        region_end,
        (w, mounted, ap (λ v. v.inner) window, at_offset, λ z. nonzero (sym at_offset ∙ z)),
      )

  -- If `from_config` succeeds, then, for a driver crate and a backend whose capacities are u32: the
  -- environment region is not empty, begins at the driver crate's own offset, whatever offset the configuration
  -- names, and ends with the chip; and the file system is mounted on a window of the same chip that begins at 0, is not
  -- empty and ends where the environment begins.
  pub from_config_lem :
      (config : Config) (sub : Subsystem S F)
      → capacity_bytes < 2 ^ 32
      → ((s : S) → storage.capacity s < 2 ^ 32)
      → from_config storage capacity_bytes file_image spidev mount_volume config ≡ ok sub
      → IsStarted sub
  unfolding from_config
  from_config_lem config sub hc hs h =
      start-IsStarted _ _ (u32_or config.env_offset (uboot_env_offset capacity_bytes))
        (u32_or config.env_size uboot_env_size) sub
        (unwrap_lt config.env_offset (uboot_env_offset capacity_bytes) (omega arith))
        (unwrap_lt config.env_size uboot_env_size (omega arith)) hs h

  -- `ensure_payload_range` lets a range of the payload pass exactly if it ends at or below the environment's offset,
  -- u32 wrap-around counted as past it, which is when the window lets the access pass.
  pub ensure_payload_range_iff :
      (sub : Subsystem S F) (offset len : ℕ)
      → len < 2 ^ 32
      → sub.env_offset < 2 ^ 32
      → ((ensure_payload_range storage capacity_bytes file_image spidev mount_volume sub offset len
            ≡ ok tt)
          ↔ (offset + len ≤ sub.env_offset))
        × ((s : S)
            → (check_bounds storage
                  (record { inner = s; payload_capacity = sub.env_offset })
                  offset
                  len
                ≡ ok tt)
              ↔ (offset + len ≤ sub.env_offset))
  unfolding ensure_payload_range
  ensure_payload_range_iff sub offset len hl ho = (
    (λ h. ground arith, λ h. ground arith),
    λ s.
        let bounds =
          check_bounds_lem storage (record { inner = s; payload_capacity = sub.env_offset }) offset
            len ho in
        (λ h. ground (arith, bounds), λ h. ground (arith, bounds)),
  )
