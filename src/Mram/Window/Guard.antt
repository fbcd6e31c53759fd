-- ===== src/Mram/Window/Guard.antt =====
-- The window keeps the U-Boot environment safe.
use radsat_linux.Base.{
  ℕ, ◌+◌, ◌^◌, ◌<◌, ◌≤◌, ◌≡◌, refl, ◌∙◌, List, [], ◌∷◌, Bytes, arith, ltb, if◌then◌else◌, length,
  inl, inr,
}
use radsat_linux.Base.Result.{ok, err, Result-cases}
use radsat_linux.Mram.Window
use radsat_linux.Mram.Window.{
  ByteStorage, PayloadWindow, BackendError, out_of_bounds, check_bounds, u32_try_from, checked_add,
}

-- What a storage promises: a read changes no byte, and a write that succeeds, or fails on its way,
-- changes no byte outside the range it was given.
pub record IsStorage {S : Type 0} (storage : ByteStorage S) (mem : S → ℕ → ℕ) : Type 0 where
  pub read_mem : (s : S) (offset len n : ℕ) → mem (storage.read s offset len).1 n ≡ mem s n
  pub write_mem :
      (s : S) (offset : ℕ) (bytes : Bytes) (n : ℕ)
      → offset + length bytes ≤ n
      → mem (storage.write s offset bytes).1 n ≡ mem s n

-- a call of the file system above
pub data Access : Type 0 where
  read_at : ℕ → ℕ → Access
  write_at : ℕ → Bytes → Access

module _ {S : Type 0} (storage : ByteStorage S) where
  -- The bounds check passes exactly the ranges that end inside the window: the sum `offset + len` is
  -- taken without wrapping around, and every other range is refused as out of bounds.
  pub check_bounds_lem :
      (w : PayloadWindow S) (offset len : ℕ)
      → w.payload_capacity < 2 ^ 32
      → check_bounds storage w offset len ≡ (
          if ltb w.payload_capacity (offset + len)
          then err (out_of_bounds offset len w.payload_capacity)
          else ok tt)
  unfolding check_bounds
  check_bounds_lem w offset len fits = ground arith

  bounds_inv :
      (w : PayloadWindow S) (offset len : ℕ) {u : Unit {0}}
      → w.payload_capacity < 2 ^ 32
      → check_bounds storage w offset len ≡ ok u
      → offset + len ≤ w.payload_capacity
  bounds_inv w offset len fits h = ground (arith, check_bounds_lem w offset len fits)

  unfoldable pub access : PayloadWindow S → Access → PayloadWindow S
  access w (read_at offset len) = (Window.read storage w offset len).1
  access w (write_at offset bytes) = (Window.write storage w offset bytes).1

  unfoldable pub access_all : PayloadWindow S → List Access → PayloadWindow S
  access_all w [] = w
  access_all w (a ∷ as_left) = access_all (access w a) as_left

  module _ (mem : S → ℕ → ℕ) (good : IsStorage storage mem) where
    pub access_guard :
        (w : PayloadWindow S) (a : Access)
        → w.payload_capacity < 2 ^ 32
        → ((access w a).payload_capacity ≡ w.payload_capacity)
          × ((n : ℕ) → w.payload_capacity ≤ n → mem (access w a).inner n ≡ mem w.inner n)
    unfolding access Window.read Window.write
    access_guard w (read_at offset len) fits =
        elim (Result-cases (check_bounds storage w offset len)) [
          | inl (e, bad) ↦ rw (bad, access, Window.read) (refl, λ n h. refl)
          | inr (u, fine) ↦
              rw (fine, access, Window.read) (refl, λ n h. good.read_mem w.inner offset len n)
        ]
    access_guard w (write_at offset bytes) fits =
        elim (Result-cases (check_bounds storage w offset (length bytes))) [
          | inl (e, bad) ↦ rw (bad, access, Window.write) (refl, λ n h. refl)
          | inr (u, fine) ↦
              let inside = bounds_inv w offset (length bytes) fits fine in
              rw (fine, access, Window.write)
                (refl, λ n h. good.write_mem w.inner offset bytes n (omega arith))
        ]

    -- Whatever reads and writes go through the window, in range or not and failing or not, no byte of
    -- the chip at or above the window's capacity changes: the U-Boot environment is never overwritten.
    pub access_all_guard :
        (as_left : List Access) (w : PayloadWindow S) (n : ℕ)
        → w.payload_capacity < 2 ^ 32
        → w.payload_capacity ≤ n
        → mem (access_all w as_left).inner n ≡ mem w.inner n
    unfolding access_all
    access_all_guard [] w n fits above = refl
    access_all_guard (a ∷ as_left) w n fits above =
        let (same, kept) = access_guard w a fits in
        access_all_guard as_left (access w a) n (omega arith) (omega arith) ∙ kept n above
