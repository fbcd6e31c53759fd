-- ===== src/Tools/Text/Replace.antt =====
-- `must_replace` against its meaning: the first occurrence is replaced, and there must be one.
use radsat_linux.Base.{
  ℕ, ◌≤◌, ◌≡◌, ◌≢◌, refl, sym, ap, true, false, [], ◌∷◌, ◌++◌, none, some, Bytes, arith, length,
  drop, append-nil, Bool-cases, inl, inr, ◌⊎◌,
}
use radsat_linux.Tools.Text.{starts_with, occurs_in, replace_first, must_replace}

pub starts_with-append : (old post : Bytes) → starts_with old (old ++ post) ≡ true
unfolding starts_with
starts_with-append [] post = refl
starts_with-append (a ∷ old) post = ground (arith, starts_with-append old post)

pub starts_with-split :
    (old text : Bytes) → starts_with old text ≡ true → text ≡ old ++ drop (length old) text
unfolding starts_with
starts_with-split [] text h = refl
starts_with-split (a ∷ old) [] h = cc
starts_with-split (a ∷ old) (b ∷ text) h = ground (arith, starts_with-split old text)

not_prefix : (old text q : Bytes) → starts_with old text ≡ false → text ≢ old ++ q
not_prefix old text q h e = cc (starts_with-append old q, ap (starts_with old) e)

nonempty : (p old q : Bytes) (a : ℕ) → [] ≢ p ++ (a ∷ old) ++ q
nonempty [] old q a e = cc
nonempty (x ∷ p) old q a e = cc

-- the first occurrence, or that there is none
abbrev pub First : Bytes → Bytes → Bytes → Type 0
First old text pre = (p q : Bytes) → text ≡ p ++ old ++ q → length pre ≤ length p

First-next :
    (old text pre : Bytes) (c : ℕ)
    → starts_with old (c ∷ text) ≡ false
    → First old text pre
    → First old (c ∷ text) (c ∷ pre)
First-next old text pre c differs first [] q e = absurd (not_prefix old (c ∷ text) q differs e)
First-next old text pre c differs first (x ∷ p) q e = omega (arith, first p q (cc))

absent_next :
    (old text : Bytes) (c : ℕ)
    → starts_with old (c ∷ text) ≡ false
    → ((p q : Bytes) → text ≢ p ++ old ++ q)
    → (p q : Bytes) → c ∷ text ≢ p ++ old ++ q
absent_next old text c differs never [] q e = not_prefix old (c ∷ text) q differs e
absent_next old text c differs never (x ∷ p) q e = never p q (cc)

pub replace_cases :
    (old new text : Bytes)
    → ((pre : Bytes) × (post : Bytes) × (text ≡ pre ++ old ++ post)
        × (occurs_in old text ≡ true)
        × (replace_first old new text ≡ pre ++ new ++ post)
        × First old text pre)
      ⊎ ((occurs_in old text ≡ false) × ((p q : Bytes) → text ≢ p ++ old ++ q))
unfolding starts_with occurs_in replace_first
replace_cases [] new [] = inl ([], [], refl, refl, sym (append-nil new), λ p q e. omega arith)
replace_cases (a ∷ old) new [] = inr (refl, λ p q e. nonempty p old q a e)
replace_cases old new (c ∷ text) = elim (Bool-cases (starts_with old (c ∷ text))) [
  | inl here ↦ inl (
    [],
    drop (length old) (c ∷ text),
    starts_with-split old (c ∷ text) here,
    rw here refl,
    rw here refl,
    λ p q e. omega arith,
  )
  | inr differs ↦ elim (replace_cases old new text) [
    | inl (pre, post, split, found, replaced, first) ↦ inl (
      c ∷ pre,
      post,
      ap (λ t. c ∷ t) split,
      rw differs found,
      rw differs (ap (λ t. c ∷ t) replaced),
      First-next old text pre c differs first,
    )
    | inr (absent, never) ↦ inr (rw differs absent, absent_next old text c differs never)
  ]
]

-- What `must_replace` does to any text: if the needle occurs, what is in front of its first occurrence
-- and behind it stays, and the needle is exchanged; and the script stops only if the needle does not occur.
pub must_replace_lem :
    (text old new : Bytes)
    → ((pre : Bytes) × (post : Bytes) × (text ≡ pre ++ old ++ post)
        × (must_replace text old new ≡ some (pre ++ new ++ post))
        × ((p q : Bytes) → text ≡ p ++ old ++ q → length pre ≤ length p))
      ⊎ ((must_replace text old new ≡ none) × ((p q : Bytes) → text ≢ p ++ old ++ q))
unfolding must_replace
must_replace_lem text old new = elim (replace_cases old new text) [
  | inl (pre, post, split, found, replaced, first) ↦
      inl (pre, post, split, rw (found, must_replace) (ap (λ t. some t) replaced), first)
  | inr (absent, never) ↦ inr (rw (absent, must_replace) refl, never)
]
