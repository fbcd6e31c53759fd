-- ===== src/Tools/Fixes/MramBits/Once.antt =====
-- What is left of the window that was put in twice.
use radsat_linux.Base.{
  ℕ, zero, suc, ◌+◌, ◌-◌, ◌≤◌, ◌≡◌, refl, ◌∙◌, true, false, List, [], ◌∷◌, ◌++◌, some, Bytes, arith,
  length, length-append, take, drop, Bool-cases, inl, inr,
}
use radsat_linux.Tools.Text.{starts_with}
use radsat_linux.Tools.Text.Occurs.{plain, starts_with-end}
use radsat_linux.Tools.Text.Positions.{positions}
use radsat_linux.Tools.Tree.{replace_all}
use radsat_linux.Tools.Whitelist.{is_blank_line}
use radsat_linux.Tools.Whitelist.Main.{rstrip}
use radsat_linux.Tools.Fixes.MramBits.{cut_second, fix_backend}
use radsat_linux.Tools.Fixes.MramBits.Needles
use radsat_linux.Tools.Fixes.MramBits.Markers.{loop_lem}

starts_with-rstrip :
    (mark s : Bytes) → starts_with mark (rstrip s) ≡ true → starts_with mark s ≡ true
unfolding starts_with rstrip
starts_with-rstrip [] s h = refl
starts_with-rstrip (a ∷ mark) [] h = h
starts_with-rstrip (a ∷ mark) (c ∷ s) h = elim (Bool-cases (is_blank_line (c ∷ s))) [
  | inl blank ↦ absurd (cc (rw (blank, rstrip) at h))
  | inr filled ↦ let h2 = (rw (filled, rstrip) at h) in ground (arith, starts_with-rstrip mark s)
]

starts_with-take :
    (mark : Bytes) (k : ℕ) (s : Bytes)
    → starts_with mark (take k s) ≡ true
    → starts_with mark s ≡ true
unfolding starts_with
starts_with-take [] k s h = refl
starts_with-take (a ∷ mark) zero s h = absurd (cc h)
starts_with-take (a ∷ mark) (suc k) [] h = h
starts_with-take (a ∷ mark) (suc k) (c ∷ s) h = ground (arith, starts_with-take mark k s)

starts_with-length : (old s : Bytes) → starts_with old s ≡ true → length old ≤ length s
unfolding starts_with
starts_with-length [] s h = omega arith
starts_with-length (a ∷ old) [] h = absurd (cc h)
starts_with-length (a ∷ old) (b ∷ s) h = ground (arith, starts_with-length old s)

-- an edit that cuts a text cannot add a marker
abbrev count : Bytes → ℕ → Bytes → ℕ
count mark n s = length (positions mark n s)

module _ (a : ℕ) (mark : Bytes) where
  count-step :
      (c d n : ℕ) (s t : Bytes)
      → (starts_with (a ∷ mark) (c ∷ s) ≡ true → starts_with (a ∷ mark) (d ∷ t) ≡ true)
      → count (a ∷ mark) (suc n) s ≤ count (a ∷ mark) (suc n) t
      → count (a ∷ mark) n (c ∷ s) ≤ count (a ∷ mark) n (d ∷ t)
  unfolding positions
  count-step c d n s t here rest = ground arith

  count-rstrip : (n : ℕ) (s : Bytes) → count (a ∷ mark) n (rstrip s) ≤ count (a ∷ mark) n s
  unfolding positions rstrip starts_with
  count-rstrip n [] = omega arith
  count-rstrip n (c ∷ s) = elim (Bool-cases (is_blank_line (c ∷ s))) [
    | inl blank ↦ rw (blank, rstrip) (omega arith)
    | inr filled ↦
        rw (filled, rstrip)
          (count-step c c n (rstrip s) s
            (λ h. starts_with-rstrip (a ∷ mark) (c ∷ s) (rw (filled, rstrip) h))
            (count-rstrip (suc n) s))
  ]

  count-end :
      (n : ℕ) (s : Bytes)
      → plain (a ∷ mark) ≡ true
      → count (a ∷ mark) n (s ++ 10 ∷ []) ≤ count (a ∷ mark) n s
  unfolding positions starts_with plain
  count-end n [] p = ground arith
  count-end n (c ∷ s) p =
      count-step c c n (s ++ 10 ∷ []) s (starts_with-end (a ∷ mark) (c ∷ s) [] p)
        (count-end (suc n) s p)

  count_cons : (c n : ℕ) (s : Bytes) → count (a ∷ mark) n (c ∷ s) ≤ suc (count (a ∷ mark) (suc n) s)
  unfolding positions
  count_cons c n s = ground arith

  -- a marker that does not stand at the front of a text stands behind it when the text is cut
  count-take_cons :
      (c n k : ℕ) (s : Bytes)
      → starts_with (a ∷ mark) (c ∷ s) ≡ false
      → count (a ∷ mark) n (c ∷ take k s) ≡ count (a ∷ mark) (suc n) (take k s)
  unfolding positions
  count-take_cons c n k s differs =
      let back = starts_with-take (a ∷ mark) (suc k) (c ∷ s) in
      elim (Bool-cases (starts_with (a ∷ mark) (c ∷ take k s))) [
        | inl here ↦ absurd (cc (back here))
        | inr gone ↦ rw (gone, positions) refl
      ]

  first_lem :
      (n j k : ℕ) (rest : List ℕ) (s : Bytes)
      → positions (a ∷ mark) n s ≡ j ∷ rest
      → j ≡ n + k
      → count (a ∷ mark) n (take k s) ≡ 0
  unfolding positions starts_with
  first_lem n j zero rest s h e = refl
  first_lem n j (suc k) rest [] h e = absurd (cc h)
  first_lem n j (suc k) rest (c ∷ s) h e = elim (Bool-cases (starts_with (a ∷ mark) (c ∷ s))) [
    | inl here ↦ let same : n ≡ j = cc (rw (here, positions) at h) in absurd (omega arith)
    | inr differs ↦
        count-take_cons c n k s differs
        ∙ first_lem (suc n) j k rest s (rw (differs, positions) at h) (omega arith)
  ]

  second_lem :
      (n i j k : ℕ) (rest : List ℕ) (s : Bytes)
      → positions (a ∷ mark) n s ≡ i ∷ j ∷ rest
      → j ≡ n + k
      → count (a ∷ mark) n (take k s) ≤ 1
  unfolding positions starts_with
  second_lem n i j zero rest s h e = omega arith
  second_lem n i j (suc k) rest [] h e = absurd (cc h)
  second_lem n i j (suc k) rest (c ∷ s) h e = elim (Bool-cases (starts_with (a ∷ mark) (c ∷ s))) [
    | inl here ↦
        let later : positions (a ∷ mark) (suc n) s ≡ j ∷ rest = cc (rw (here, positions) at h) in
        let none_left = first_lem (suc n) j k rest s later (omega arith) in
        let one_more = count_cons c n (take k s) in omega arith
    | inr differs ↦
        let ih = second_lem (suc n) i j k rest s (rw (differs, positions) at h) (omega arith) in
        let same = count-take_cons c n k s differs in omega arith
  ]

  cut_second-once :
      (text : Bytes)
      → plain (a ∷ mark) ≡ true
      → (idxs : List ℕ) → positions (a ∷ mark) 0 text ≡ idxs
      → count (a ∷ mark) 0 (cut_second idxs text) ≤ 1
  unfolding cut_second
  cut_second-once text p [] h = rw h (omega arith)
  cut_second-once text p (i ∷ []) h = rw h (omega arith)
  cut_second-once text p (i ∷ j ∷ idxs) h =
      let at_end = count-end 0 (rstrip (take j text)) p in
      let stripped = count-rstrip 0 (take j text) in
      let cut = second_lem 0 i j j idxs text h (omega arith) in omega arith

-- a replacement by a shorter text does not make the text longer
replace_all-length :
    (old new : Bytes) (skip : ℕ) (text : Bytes)
    → length new ≤ length old
    → length (replace_all old new skip text) ≤ length text - skip
unfolding replace_all
replace_all-length old new skip [] h = omega arith
replace_all-length old new (suc skip) (c ∷ text) h =
    let ih = replace_all-length old new skip text h in omega arith
replace_all-length old new zero (c ∷ text) h = elim (Bool-cases (starts_with old (c ∷ text))) [
  | inl here ↦
      let fits = starts_with-length old (c ∷ text) here in
      let ih = replace_all-length old new (length old - 1) text h in
      let sum = length-append new (replace_all old new (length old - 1) text) in
      rw (here, replace_all) (omega arith)
  | inr differs ↦
      let ih = replace_all-length old new 0 text h in rw (differs, replace_all) (omega arith)
]

marker-plain : plain Needles.marker ≡ true
unfolding plain
marker-plain = refl

-- With fuel for one round more than the text has characters the script gets to the end of its loop, and
-- the text that it writes to backend.rs has the window's marker at most once, however often it stood in the text
-- that was read.
pub fix_backend-once :
    (text : Bytes)
    → (fixed : Bytes) × (fix_backend (suc (length text)) text ≡ some fixed)
      × (length (positions Needles.marker 0 fixed) ≤ 1)
unfolding fix_backend
fix_backend-once text =
    let once = replace_all Needles.twice_invalid Needles.once_invalid 0 text in
    let short =
      replace_all-length Needles.twice_invalid Needles.once_invalid 0 text (omega arith) in
    let ends = loop_lem (suc (length text)) b'/' (drop 1 Needles.marker) once 0 [] (omega arith) in
    (
      cut_second (positions Needles.marker 0 once) once,
      rw ends refl,
      cut_second-once b'/' (drop 1 Needles.marker) once marker-plain
          (positions Needles.marker 0 once) refl,
    )
