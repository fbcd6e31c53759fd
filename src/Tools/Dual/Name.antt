-- ===== src/Tools/Dual/Name.antt =====
-- The names that `kubos_fit_to_dfu_name` gives.
use radsat_linux.Base.{
  ℕ, zero, suc, ◌-◌, ◌<◌, ◌≤◌, ◌≡◌, ◌≢◌, refl, ap, false, [], ◌∷◌, ◌++◌, none, some, Bytes,
  if◌then◌else◌, leb, ◌==◌, length, take, arith, All,
}
use radsat_linux.Tools.Dual.{name_length, base_name, printed_name, kubos_fit_to_dfu_name}

length-take : (n : ℕ) (s : Bytes) → length (take n s) ≤ n
length-take zero s = ground arith
length-take (suc n) [] = omega arith
length-take (suc n) (c ∷ s) = omega (arith, length-take n s)

-- The name is given, and fits its buffer with the final zero, whatever the image is called and however
-- small the buffer is, if it has room at all.
pub dfu_name-fits :
    (fit_name : Bytes) (outlen : ℕ)
    → 0 < outlen
    → (name : Bytes) × (kubos_fit_to_dfu_name fit_name outlen ≡ some name) × (length name < outlen)
unfolding kubos_fit_to_dfu_name
dfu_name-fits fit_name outlen h =
    let printed = printed_name (base_name fit_name) in
    let nonzero : (outlen == 0) ≡ false = ground arith in
    (
      take (outlen - 1) printed,
      rw (nonzero, kubos_fit_to_dfu_name) refl,
      omega (arith, length-take (outlen - 1) printed),
    )

take-append : (n : ℕ) (s t : Bytes) → n ≤ length s → take n (s ++ t) ≡ take n s
take-append zero s t h = refl
take-append (suc n) [] t h = absurd (omega arith)
take-append (suc n) (c ∷ s) t h = ap (λ r. c ∷ r) (take-append n s t (omega arith))

name_length-unit :
    (base unit : Bytes)
    → All (λ c. c ≢ b'@') base
    → (name_length base ≡ length base) × (name_length (base ++ b'@' ∷ unit) ≡ length base)
unfolding name_length
name_length-unit [] unit h = (refl, refl)
name_length-unit (c ∷ base) unit (h, t) = ground (arith, name_length-unit base unit t)

base_name-unit :
    (base unit : Bytes)
    → All (λ c. c ≢ b'@') base
    → base_name (base ++ b'@' ∷ unit) ≡ base_name base
unfolding base_name
base_name-unit base unit h =
    let (plain, with_unit) = name_length-unit base unit h in
    rw (plain, with_unit, base_name)
      (take-append (if leb 64 (length base) then 63 else length base) base (b'@' ∷ unit)
        (ground arith))

-- A unit behind `@` makes no difference to the name.
pub dfu_name-unit :
    (base unit : Bytes) (outlen : ℕ)
    → All (λ c. c ≢ b'@') base
    → kubos_fit_to_dfu_name (base ++ b'@' ∷ unit) outlen ≡ kubos_fit_to_dfu_name base outlen
unfolding kubos_fit_to_dfu_name
dfu_name-unit base unit outlen h =
    ap (λ b. if outlen == 0 then none else some (take (outlen - 1) (printed_name b)))
      (base_name-unit base unit h)
