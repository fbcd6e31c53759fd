-- ===== src/Tools/Text/Once.antt =====
-- A text that stands in another once.
use radsat_linux.Base.{
  ℕ, zero, suc, ◌-◌, ◌≤◌, ◌≡◌, refl, ap, [], ◌∷◌, ◌++◌, Bytes, arith, length, drop, Bool-cases, inl,
  inr,
}
use radsat_linux.Tools.Text.{starts_with, replace_first}
use radsat_linux.Tools.Tree.{replace_all}
use radsat_linux.Tools.Text.Positions.{positions}

replace_all-nowhere :
    (a : ℕ) (old new : Bytes) (skip n : ℕ) (t : Bytes)
    → length (positions (a ∷ old) n t) ≤ 0
    → replace_all (a ∷ old) new skip t ≡ drop skip t
unfolding replace_all positions
replace_all-nowhere a old new zero n [] h = refl
replace_all-nowhere a old new (suc skip) n [] h = refl
replace_all-nowhere a old new (suc skip) n (c ∷ t) h =
    replace_all-nowhere a old new skip (suc n) t (ground arith)
replace_all-nowhere a old new zero n (c ∷ t) h = elim (Bool-cases (starts_with (a ∷ old) (c ∷ t))) [
  | inl here ↦ absurd (omega (arith, rw (here, positions) at h))
  | inr differs ↦
      rw (differs, replace_all)
        (ap (λ s. c ∷ s) (replace_all-nowhere a old new 0 (suc n) t (rw (differs, positions) at h)))
]

-- replacing all is replacing the first
pub replace_all-once :
    (a : ℕ) (old new : Bytes) (n : ℕ) (t : Bytes)
    → length (positions (a ∷ old) n t) ≤ 1
    → replace_all (a ∷ old) new 0 t ≡ replace_first (a ∷ old) new t
unfolding replace_all replace_first positions starts_with
replace_all-once a old new n [] h = refl
replace_all-once a old new n (c ∷ t) h = elim (Bool-cases (starts_with (a ∷ old) (c ∷ t))) [
  | inl here ↦
      let rest : length (positions (a ∷ old) (suc n) t) ≤ 0 =
        omega (arith, rw (here, positions) at h) in
      rw
        (
          here,
          replace_all,
          replace_first,
          replace_all-nowhere a old new (length {A = ℕ} (a ∷ old) - 1) (suc n) t rest,
        )
        (ap (λ k. new ++ drop k t) (omega arith))
  | inr differs ↦
      rw (differs, replace_all, replace_first)
        (ap (λ s. c ∷ s) (replace_all-once a old new (suc n) t (rw (differs, positions) at h)))
]
