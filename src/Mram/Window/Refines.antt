-- ===== src/Mram/Window/Refines.antt =====
-- The window is an array of `payload_capacity` bytes of its own.
use radsat_linux.Base.{
  ℕ, zero, suc, ◌+◌, ◌^◌, ◌<◌, ◌≤◌, ◌≡◌, refl, ap, ◌∙◌, List, [], ◌∷◌, Bytes, arith, ltb,
  if◌then◌else◌, length, inl, inr, Bool-cases,
}
use radsat_linux.Base.Result.{Result, ok, err}
use radsat_linux.Mram.Driver.Chip.{contents, written}
use radsat_linux.Mram.Window
use radsat_linux.Mram.Window.{ByteStorage, PayloadWindow, BackendError, out_of_bounds, check_bounds}
use radsat_linux.Mram.Window.Guard.{Access, read_at, write_at, check_bounds_lem}

-- What a storage of working hardware promises: in its range a read gives the bytes, and a write puts
-- them in; neither changes the capacity.
pub record IsArray {S : Type 0} (storage : ByteStorage S) (mem : S → ℕ → ℕ) : Type 0 where
  pub read_out :
      (s : S) (offset len : ℕ)
      → offset + len ≤ storage.capacity s
      → (storage.read s offset len).0 ≡ ok (contents (mem s) offset len)
  pub read_mem : (s : S) (offset len n : ℕ) → mem (storage.read s offset len).1 n ≡ mem s n
  pub read_capacity :
      (s : S) (offset len : ℕ) → storage.capacity (storage.read s offset len).1 ≡ storage.capacity s
  pub write_out :
      (s : S) (offset : ℕ) (bytes : Bytes)
      → offset + length bytes ≤ storage.capacity s
      → (storage.write s offset bytes).0 ≡ ok tt
  pub write_mem :
      (s : S) (offset : ℕ) (bytes : Bytes) (n : ℕ)
      → offset + length bytes ≤ storage.capacity s
      → mem (storage.write s offset bytes).1 n ≡ written offset bytes (mem s) n
  pub write_capacity :
      (s : S) (offset : ℕ) (bytes : Bytes)
      → storage.capacity (storage.write s offset bytes).1 ≡ storage.capacity s

-- what a call gives its caller
pub data Answer : Type 0 where
  bytes_read : Result BackendError Bytes → Answer
  done : Result BackendError (Unit {0}) → Answer

-- the array's answer to a call, and the array after it
unfoldable pub array_step : ℕ → (ℕ → ℕ) → Access → Answer × (ℕ → ℕ)
array_step limit a (read_at offset len) = (
  bytes_read (
      if ltb limit (offset + len)
      then err (out_of_bounds offset len limit)
      else ok (contents a offset len)),
  a,
)
array_step limit a (write_at offset bytes) =
    if ltb limit (offset + length bytes)
    then (done (err (out_of_bounds offset (length bytes) limit)), a)
    else (done (ok tt), written offset bytes a)

unfoldable pub array_answers : ℕ → (ℕ → ℕ) → List Access → List Answer
array_answers limit a [] = []
array_answers limit a (call ∷ calls) =
    (array_step limit a call).0 ∷ array_answers limit (array_step limit a call).1 calls

contents-agree :
    (a b : ℕ → ℕ) (offset len : ℕ)
    → ((n : ℕ) → a n ≡ b n)
    → contents a offset len ≡ contents b offset len
unfolding contents
contents-agree a b offset zero h = refl
contents-agree a b offset (suc len) h = rw (h offset, contents-agree a b (offset + 1) len h) refl

written-agree :
    (a b : ℕ → ℕ) (offset : ℕ) (bytes : Bytes) (n : ℕ)
    → ((k : ℕ) → a k ≡ b k)
    → written offset bytes a n ≡ written offset bytes b n
written-agree a b offset bytes n h = rw (h n) refl

module _ {S : Type 0} (storage : ByteStorage S) where
  unfoldable pub step : PayloadWindow S → Access → Answer × PayloadWindow S
  step w (read_at offset len) =
      let (out, w2) = Window.read storage w offset len in (bytes_read out, w2)
  step w (write_at offset bytes) =
      let (out, w2) = Window.write storage w offset bytes in (done out, w2)

  unfoldable pub answers : PayloadWindow S → List Access → List Answer
  answers w [] = []
  answers w (call ∷ calls) = (step w call).0 ∷ answers (step w call).1 calls

  module _ (mem : S → ℕ → ℕ) (good : IsArray storage mem) where
    -- the window stands for the array `a` and fits into its storage
    abbrev Stands : PayloadWindow S → ℕ → (ℕ → ℕ) → Type 0
    Stands w limit a =
        (w.payload_capacity ≡ limit)
        × (limit ≤ storage.capacity w.inner)
        × ((n : ℕ) → mem w.inner n ≡ a n)

    step-Stands :
        (w : PayloadWindow S) (limit : ℕ) (a : ℕ → ℕ) (call : Access)
        → limit < 2 ^ 32
        → Stands w limit a
        → ((step w call).0 ≡ (array_step limit a call).0)
          × Stands (step w call).1 limit (array_step limit a call).1
    unfolding step array_step Window.read Window.write
    step-Stands w limit a (read_at offset len) fits (same, inside, agree) =
        let check = check_bounds_lem storage w offset len (omega arith) in
        elim (Bool-cases (ltb limit (offset + len))) [
          | inl out ↦
              rw (check, same, out, step, Window.read, array_step) (refl, (same, inside, agree))
          | inr fine ↦
              rw
                (
                  check,
                  same,
                  fine,
                  step,
                  Window.read,
                  array_step,
                  good.read_out w.inner offset len (ground arith),
                )
                (
                  ap (λ s. bytes_read (ok s)) (contents-agree (mem w.inner) a offset len agree),
                  (
                    same,
                    rw (good.read_capacity w.inner offset len) inside,
                    λ n. good.read_mem w.inner offset len n ∙ agree n,
                  ),
                )
        ]
    step-Stands w limit a (write_at offset bytes) fits (same, inside, agree) =
        let check = check_bounds_lem storage w offset (length bytes) (omega arith) in
        elim (Bool-cases (ltb limit (offset + length bytes))) [
          | inl out ↦
              rw (check, same, out, step, Window.write, array_step) (refl, (same, inside, agree))
          | inr fine ↦
              let within : offset + length bytes ≤ storage.capacity w.inner = ground arith in
              rw
                (
                  check,
                  same,
                  fine,
                  step,
                  Window.write,
                  array_step,
                  good.write_out w.inner offset bytes within,
                )
                (
                  refl,
                  (
                    same,
                    rw (good.write_capacity w.inner offset bytes) inside,
                    λ n.
                        good.write_mem w.inner offset bytes n within
                        ∙ written-agree (mem w.inner) a offset bytes n agree,
                  ),
                )
        ]

    -- Over a storage of working hardware, a window of `limit` bytes answers any list of reads and writes
    -- as an array of `limit` bytes does that begins with the same contents: each read gives the bytes
    -- that the writes before it left, and each call beyond the end is refused and changes nothing.
    pub answers-refine :
        (calls : List Access) (w : PayloadWindow S) (limit : ℕ) (a : ℕ → ℕ)
        → limit < 2 ^ 32
        → w.payload_capacity ≡ limit
        → limit ≤ storage.capacity w.inner
        → ((n : ℕ) → mem w.inner n ≡ a n)
        → answers w calls ≡ array_answers limit a calls
    unfolding answers array_answers
    answers-refine [] w limit a fits same inside agree = refl
    answers-refine (call ∷ calls) w limit a fits same inside agree =
        let (head, (same2, inside2, agree2)) =
          step-Stands w limit a call fits (same, inside, agree) in
        rw
          (
            head,
            answers-refine calls (step w call).1 limit (array_step limit a call).1 fits same2
                inside2 agree2,
          )
          refl
