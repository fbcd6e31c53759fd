-- ===== src/Tools/Fixes/UbootPatches/Lines.antt =====
-- The lines of a patch after the fix.
use radsat_linux.Base.{
  ℕ, zero, suc, ◌+◌, ◌-◌, ◌≤◌, ◌≡◌, refl, sym, ap, ◌∙◌, Bool, true, false, [], ◌∷◌, ◌++◌, some,
  Bytes, arith, ◌==◌, if◌then◌else◌, length, drop, Bool-cases, inl, inr,
}
use radsat_linux.Tools.Text.{starts_with, occurs_in}
use radsat_linux.Tools.Text.Replace.{starts_with-split}
use radsat_linux.Tools.Tree.{replace_all}
use radsat_linux.Tools.Fixes.UbootPatches.{fix_policy}
use radsat_linux.Tools.Fixes.UbootPatches.Needles

-- the number of newlines
unfoldable pub lines : Bytes → ℕ
lines [] = 0
lines (c ∷ s) = if c == 10 then suc (lines s) else lines s

lines-append : (s t : Bytes) → lines (s ++ t) ≡ lines s + lines t
unfolding lines
lines-append [] t = omega arith
lines-append (c ∷ s) t = ground (arith, lines-append s t)

-- a text cannot stand at a place of `head`, whatever comes behind `head`
unfoldable pub differs : Bytes → Bytes → Bool
differs [] s = false
differs (a ∷ old) [] = false
differs (a ∷ old) (b ∷ s) = if a == b then differs old s else true

unfoldable pub clear : Bytes → Bytes → Bool
clear old [] = true
clear old (c ∷ head) = if differs old (c ∷ head) then clear old head else false

differs-starts_with :
    (old s body : Bytes) → differs old s ≡ true → starts_with old (s ++ body) ≡ false
unfolding differs starts_with
differs-starts_with [] s body h = absurd (cc h)
differs-starts_with (a ∷ old) [] body h = absurd (cc h)
differs-starts_with (a ∷ old) (b ∷ s) body h = ground (arith, differs-starts_with old s body)

split_lines :
    (a : ℕ) (old : Bytes) (c : ℕ) (text : Bytes)
    → starts_with (a ∷ old) (c ∷ text) ≡ true
    → lines (c ∷ text) ≡ lines (a ∷ old) + lines (drop (length old) text)
split_lines a old c text h =
    ap lines (starts_with-split (a ∷ old) (c ∷ text) h)
    ∙ lines-append (a ∷ old) (drop (length old) text)

clear_cons :
    (old : Bytes) (c : ℕ) (head : Bytes)
    → clear old (c ∷ head) ≡ true
    → (differs old (c ∷ head) ≡ true) × (clear old head ≡ true)
unfolding clear
clear_cons old c head h = ground arith

module _ (a : ℕ) (old new : Bytes) where
  replace_all-head :
      (head body : Bytes)
      → clear (a ∷ old) head ≡ true
      → replace_all (a ∷ old) new 0 (head ++ body) ≡ head ++ replace_all (a ∷ old) new 0 body
  unfolding replace_all
  replace_all-head [] body h = refl
  replace_all-head (c ∷ head) body h =
      let (here, rest) = clear_cons (a ∷ old) c head h in
      rw (differs-starts_with (a ∷ old) (c ∷ head) body here, replace_all)
        (ap (λ s. c ∷ s) (replace_all-head head body rest))

  occurs_in-head :
      (head body : Bytes)
      → clear (a ∷ old) head ≡ true
      → occurs_in (a ∷ old) (head ++ body) ≡ occurs_in (a ∷ old) body
  unfolding occurs_in
  occurs_in-head [] body h = refl
  occurs_in-head (c ∷ head) body h =
      let (here, rest) = clear_cons (a ∷ old) c head h in
      rw (differs-starts_with (a ∷ old) (c ∷ head) body here) (occurs_in-head head body rest)

  -- the line count where an occurrence is replaced, and where a character stays
  hit_lines :
      (c : ℕ) (text : Bytes)
      → lines (a ∷ old) ≤ lines new
      → starts_with (a ∷ old) (c ∷ text) ≡ true
      → lines (drop (length {A = ℕ} (a ∷ old) - 1) text)
        ≤ lines (replace_all (a ∷ old) new (length {A = ℕ} (a ∷ old) - 1) text)
      → lines (c ∷ text) + lines new
        ≤ lines (replace_all (a ∷ old) new 0 (c ∷ text)) + lines (a ∷ old)
  unfolding replace_all
  hit_lines c text h here ih =
      let one : length {A = ℕ} (a ∷ old) - 1 ≡ length old = omega arith in
      let split = split_lines a old c text here in
      let sum = lines-append new (replace_all (a ∷ old) new (length {A = ℕ} (a ∷ old) - 1) text) in
      let at_drop = ap (λ k. lines (drop k text)) one in rw (here, replace_all) (omega arith)

  miss_lines :
      (c : ℕ) (text : Bytes) (m n : ℕ)
      → starts_with (a ∷ old) (c ∷ text) ≡ false
      → lines text + m ≤ lines (replace_all (a ∷ old) new 0 text) + n
      → lines (c ∷ text) + m ≤ lines (replace_all (a ∷ old) new 0 (c ∷ text)) + n
  unfolding replace_all lines
  miss_lines c text m n not_here ih = rw (not_here, replace_all) (ground arith)

  replace_all-lines :
      (skip : ℕ) (text : Bytes)
      → lines (a ∷ old) ≤ lines new
      → lines (drop skip text) ≤ lines (replace_all (a ∷ old) new skip text)
  unfolding replace_all
  replace_all-lines zero [] h = omega arith
  replace_all-lines (suc skip) [] h = omega arith
  replace_all-lines (suc skip) (c ∷ text) h = replace_all-lines skip text h
  replace_all-lines zero (c ∷ text) h = elim (Bool-cases (starts_with (a ∷ old) (c ∷ text))) [
    | inl here ↦
        let ih = replace_all-lines (length {A = ℕ} (a ∷ old) - 1) text h in
        let all = hit_lines c text h here ih in omega arith
    | inr not_here ↦
        let ih = replace_all-lines 0 text h in
        let all = miss_lines c text 0 0 not_here (omega arith) in omega arith
  ]

  found_nowhere : occurs_in (a ∷ old) [] ≡ true → ⊥
  unfolding occurs_in starts_with
  found_nowhere found = cc

  -- a text with an occurrence gets the more lines
  more_lines :
      (text : Bytes)
      → lines (a ∷ old) ≤ lines new
      → occurs_in (a ∷ old) text ≡ true
      → lines text + lines new ≤ lines (replace_all (a ∷ old) new 0 text) + lines (a ∷ old)
  unfolding replace_all occurs_in
  more_lines [] h found = absurd (found_nowhere found)
  more_lines (c ∷ text) h found = elim (Bool-cases (starts_with (a ∷ old) (c ∷ text))) [
    | inl here ↦ hit_lines c text h here (replace_all-lines (length {A = ℕ} (a ∷ old) - 1) text h)
    | inr not_here ↦
        miss_lines c text (lines new) (lines (a ∷ old)) not_here
          (more_lines text h (rw not_here at found))
  ]

layout_lines : lines Needles.present_invalid ≡ lines Needles.layout_ok + 8
unfolding lines
layout_lines = refl

skip_lines : lines Needles.skip_mismatch ≡ lines Needles.skip_missing + 1
unfolding lines
skip_lines = refl

abbrev edited : Bytes → Bytes
edited t =
    replace_all Needles.skip_missing Needles.skip_mismatch 0
      (replace_all Needles.layout_ok Needles.present_invalid 0 t)

fix_policy-found :
    (t fixed : Bytes)
    → fix_policy t ≡ some fixed
    → (occurs_in Needles.layout_ok t ≡ true) × (fixed ≡ edited t)
unfolding fix_policy
fix_policy-found t fixed e = elim (Bool-cases (occurs_in Needles.layout_ok t)) [
  | inr missing ↦ absurd (cc (rw missing at e))
  | inl found ↦ elim (Bool-cases (occurs_in Needles.skip_missing t)) [
    | inr missing ↦ absurd (cc (rw (found, missing) at e))
    | inl called ↦ let same : edited t ≡ fixed = cc (rw (found, called) at e) in (found, sym same)
  ]
]

lines-edited :
    (body : Bytes) → occurs_in Needles.layout_ok body ≡ true → lines body + 8 ≤ lines (edited body)
lines-edited body found =
    let more =
      more_lines b'+' (drop 1 Needles.layout_ok) Needles.present_invalid body
        (omega (arith, layout_lines)) found in
    let kept =
      replace_all-lines b'+' (drop 1 Needles.skip_missing) Needles.skip_mismatch 0
        (replace_all Needles.layout_ok Needles.present_invalid 0 body)
        (omega (arith, skip_lines)) in
    omega (arith, layout_lines)

-- An edit of 0007-bbb-fram-mission-policy.patch that goes through leaves the patch's head as it is, the count
-- of lines in `@@ -0,0 +1,n @@` included, and makes what comes behind the head at least eight lines longer. The head
-- is any text in which neither of the two replaced texts can begin.
pub fix_policy-lines :
    (head body fixed : Bytes)
    → clear Needles.layout_ok head ≡ true
    → clear Needles.skip_missing head ≡ true
    → fix_policy (head ++ body) ≡ some fixed
    → (body2 : Bytes) × (fixed ≡ head ++ body2) × (lines body + 8 ≤ lines body2)
fix_policy-lines head body fixed clear1 clear2 e =
    let (found, same) = fix_policy-found (head ++ body) fixed e in
    let first =
      replace_all-head b'+' (drop 1 Needles.layout_ok) Needles.present_invalid head body clear1 in
    let second =
      replace_all-head b'+' (drop 1 Needles.skip_missing) Needles.skip_mismatch head
        (replace_all Needles.layout_ok Needles.present_invalid 0 body) clear2 in
    let inside =
      sym (occurs_in-head b'+' (drop 1 Needles.layout_ok) Needles.present_invalid head body clear1)
      ∙ found in
    (
      edited body,
      same ∙ ap (replace_all Needles.skip_missing Needles.skip_mismatch 0) first ∙ second,
      lines-edited body inside,
    )
