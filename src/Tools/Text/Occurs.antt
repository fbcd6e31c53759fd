-- ===== src/Tools/Text/Occurs.antt =====
-- Where a text without newlines stands in a longer one.
use radsat_linux.Base.{
  ℕ, ◌≡◌, refl, Bool, true, false, ◌==◌, [], ◌∷◌, ◌++◌, Bytes, arith, if◌then◌else◌, Bool-cases,
  inl, inr, ◌⊎◌,
}
use radsat_linux.Tools.Text.{starts_with, occurs_in}

-- a text without newlines
unfoldable pub plain : Bytes → Bool
plain [] = true
plain (c ∷ s) = if c == 10 then false else plain s

pub starts_with-end :
    (mark s t : Bytes)
    → plain mark ≡ true
    → starts_with mark (s ++ 10 ∷ t) ≡ true
    → starts_with mark s ≡ true
unfolding plain starts_with
starts_with-end [] s t p h = refl
starts_with-end (a ∷ mark) [] t p h = ground arith
starts_with-end (a ∷ mark) (b ∷ s) t p h = ground (arith, starts_with-end mark s t)

-- it stands in front of a newline or behind it
pub occurs_in-parts :
    (a : ℕ) (mark s t : Bytes)
    → plain (a ∷ mark) ≡ true
    → occurs_in (a ∷ mark) (s ++ 10 ∷ t) ≡ true
    → (occurs_in (a ∷ mark) s ≡ true) ⊎ (occurs_in (a ∷ mark) t ≡ true)
unfolding occurs_in starts_with plain
occurs_in-parts a mark [] t p h = inr (ground arith)
occurs_in-parts a mark (c ∷ s) t p h =
    elim (Bool-cases (starts_with (a ∷ mark) (c ∷ s ++ 10 ∷ t))) [
      | inl here ↦ inl (rw (starts_with-end (a ∷ mark) (c ∷ s) t p here) refl)
      | inr later ↦ elim (occurs_in-parts a mark s t p (rw later at h)) [
        | inl left ↦ inl (ground arith)
        | inr right ↦ inr right
      ]
    ]

pub starts_with_trans :
    (mark big t : Bytes)
    → starts_with mark big ≡ true
    → starts_with big t ≡ true
    → starts_with mark t ≡ true
unfolding starts_with
starts_with_trans [] big t h k = refl
starts_with_trans (a ∷ mark) [] t h k = absurd (cc h)
starts_with_trans (a ∷ mark) (b ∷ big) [] h k = k
starts_with_trans (a ∷ mark) (b ∷ big) (c ∷ t) h k = ground (arith, starts_with_trans mark big t)
