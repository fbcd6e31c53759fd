-- ===== src/Tools/Fixes/MramBits/Markers.antt =====
-- The marker loop ends, with every marker found.
use radsat_linux.Base.{
  ℕ, zero, suc, ◌+◌, ◌<◌, ◌≡◌, refl, sym, ap, ◌∙◌, List, [], ◌∷◌, ◌++◌, none, some, Bytes, arith,
  length, drop, append_assoc, append-nil, Bool-cases, inl, inr, ◌⊎◌,
}
use radsat_linux.Tools.Text.{starts_with}
use radsat_linux.Tools.Text.Positions.{positions}
use radsat_linux.Tools.Fixes.MramBits.{find, marker_loop}

drop-drop : (i n m : ℕ) (text : Bytes) → m ≡ n + i → drop i (drop n text) ≡ drop m text
drop-drop i zero m text h = ap (λ k. drop k text) (omega arith)
drop-drop zero (suc n) zero [] h = refl
drop-drop zero (suc n) (suc m) [] h = refl
drop-drop (suc i) (suc n) zero [] h = refl
drop-drop (suc i) (suc n) (suc m) [] h = refl
drop-drop i (suc n) zero (c ∷ text) h = absurd (omega arith)
drop-drop i (suc n) (suc m) (c ∷ text) h = drop-drop i n m text (omega arith)

length-drop : (i : ℕ) (text : Bytes) → i < length text → length (drop (suc i) text) < length text
length-drop i [] h = absurd (omega arith)
length-drop zero (c ∷ text) h = omega arith
length-drop (suc i) (c ∷ text) h = let ih = length-drop i text (omega arith) in omega arith

-- what `find` gives: nothing, or the first position
abbrev FoundAt : Bytes → ℕ → Bytes → ℕ → Type 0
FoundAt marker n text i =
    (find marker text ≡ some i)
    × (i < length text)
    × (positions marker n text ≡ (n + i) ∷ positions marker (suc (n + i)) (drop (suc i) text))

abbrev Found : Bytes → ℕ → Bytes → Type 0
Found marker n text =
    ((find marker text ≡ none) × (positions marker n text ≡ []))
    ⊎ ((i : ℕ) × FoundAt marker n text i)

find-Found : (a : ℕ) (marker : Bytes) (n : ℕ) (text : Bytes) → Found (a ∷ marker) n text
unfolding find positions starts_with
find-Found a marker n [] = inl (refl, refl)
find-Found a marker n (c ∷ text) = elim (Bool-cases (starts_with (a ∷ marker) (c ∷ text))) [
  | inl here ↦
      let same : n ≡ n + 0 = omega arith in
      inr (
        0,
        (
          rw (here, find) refl,
          omega arith,
          rw (here, positions) (ap (λ k. k ∷ positions (a ∷ marker) (suc k) text) same),
        ),
      )
  | inr differs ↦ elim (find-Found a marker (suc n) text) [
    | inl (nowhere, empty) ↦
        inl (rw (differs, find, nowhere) refl, rw (differs, positions, empty) refl)
    | inr (i, (at_i, inside, places)) ↦
        let same : suc n + i ≡ n + suc i = omega arith in
        inr (
          suc i,
          (
            rw (differs, find, at_i) refl,
            omega arith,
            rw (differs, positions)
                (places ∙ ap (λ k. k ∷ positions (a ∷ marker) (suc k) (drop (suc i) text)) same),
          ),
        )
  ]
]

pub loop_lem :
    (fuel a : ℕ) (marker text : Bytes) (start : ℕ) (idxs : List ℕ)
    → length (drop start text) < fuel
    → marker_loop fuel (a ∷ marker) text start idxs
      ≡ some (idxs ++ positions (a ∷ marker) start (drop start text))
unfolding marker_loop
loop_lem zero a marker text start idxs h = absurd (omega arith)
loop_lem (suc fuel) a marker text start idxs h =
    elim (find-Found a marker start (drop start text)) [
      | inl (nowhere, empty) ↦
          rw (nowhere, marker_loop, empty) (ap (λ l. some l) (sym (append-nil idxs)))
      | inr (i, (at_i, inside, places)) ↦
          let shorter = length-drop i (drop start text) inside in
          let same = drop-drop (suc i) start (suc (start + i)) text (omega arith) in
          let less : length (drop (suc (start + i)) text) < fuel =
            omega (arith, ap (λ l. length l) same) in
          let ih = loop_lem fuel a marker text (suc (start + i)) (idxs ++ (start + i) ∷ []) less in
          rw (at_i, marker_loop, ih, places, same)
            (ap (λ l. some l)
              (append_assoc idxs ((start + i) ∷ [])
                (positions (a ∷ marker) (suc (start + i)) (drop (suc (start + i)) text))))
    ]

-- The loop over a marker that is not empty ends within one round more than the text has characters, and
-- has collected every position at which the marker stands, overlapping ones included, in order.
pub marker_loop-ends :
    (a : ℕ) (marker text : Bytes)
    → marker_loop (suc (length text)) (a ∷ marker) text 0 [] ≡ some (positions (a ∷ marker) 0 text)
marker_loop-ends a marker text = loop_lem (suc (length text)) a marker text 0 [] (omega arith)
