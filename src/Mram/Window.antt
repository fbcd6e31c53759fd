-- ===== src/Mram/Window.antt =====
-- `PayloadWindowBackend` of mram-service's src/backend.rs, as tools/apply-mram-fram-plan2.py writes
-- it: the part of the chip below the U-Boot environment, as a storage of its own. The storage behind it,
-- `Box<dyn ByteStorage>`, is the record `ByteStorage` over its state `S`.
pub mod Guard
pub mod Refines
use radsat_linux.Base.{
  ℕ, ◌+◌, ◌^◌, ◌<◌, Bool, not, ◌||◌, List, [], ◌∷◌, Option, none, some, Bytes, ltb, leb, ◌==◌,
  if◌then◌else◌, length,
}
use radsat_linux.Base.Result.{Result, ok, err, ◌>>=◌, ◌>>◌, fail_if, or_err}

pub data BackendError : Type 0 where
  -- offset, len, capacity
  out_of_bounds : ℕ → ℕ → ℕ → BackendError
  invalid_config : ℕ → ℕ → BackendError
  io : BackendError

pub record ByteStorage (S : Type 0) : Type 0 where
  pub capacity : S → ℕ
  -- `read(offset, &mut out)` fills a buffer of the given length; the state comes back after an error too
  pub read : S → ℕ → ℕ → Result BackendError Bytes × S
  pub write : S → ℕ → Bytes → Result BackendError (Unit {0}) × S

pub record PayloadWindow (S : Type 0) : Type 0 where
  pub inner : S
  pub payload_capacity : ℕ

-- `u32::try_from(len)`
abbrev pub u32_try_from : ℕ → Option ℕ
u32_try_from len = if ltb len (2 ^ 32) then some len else none

-- `offset.checked_add(len)` on u32
abbrev pub checked_add : ℕ → ℕ → Option ℕ
checked_add a b = if ltb (a + b) (2 ^ 32) then some (a + b) else none

module _ {S : Type 0} (storage : ByteStorage S) where
  unfoldable pub new : S → ℕ → Result BackendError (PayloadWindow S)
  new inner payload_capacity = do
    fail_if (payload_capacity == 0 || ltb (storage.capacity inner) payload_capacity)
        (invalid_config payload_capacity (storage.capacity inner))
    ok (record { inner = inner; payload_capacity = payload_capacity })

  -- the bounds check that `read` and `write` share
  unfoldable pub check_bounds : PayloadWindow S → ℕ → ℕ → Result BackendError (Unit {0})
  check_bounds w offset len = do
    let refused = out_of_bounds offset len w.payload_capacity
    len_u32 ← or_err (u32_try_from len) refused
    end ← or_err (checked_add offset len_u32) refused
    fail_if (ltb w.payload_capacity end) refused

  unfoldable pub read : PayloadWindow S → ℕ → ℕ → Result BackendError Bytes × PayloadWindow S
  read w offset len = elim (check_bounds w offset len) [
    | err e ↦ (err e, w)
    | ok _ ↦ let (out, s) = storage.read w.inner offset len in (out, record w { inner = s })
  ]

  unfoldable pub write :
      PayloadWindow S → ℕ → Bytes → Result BackendError (Unit {0}) × PayloadWindow S
  write w offset bytes = elim (check_bounds w offset (length bytes)) [
    | err e ↦ (err e, w)
    | ok _ ↦ let (done, s) = storage.write w.inner offset bytes in (done, record w { inner = s })
  ]
