-- ===== src/Tools/Text/Insert.antt =====
-- An insertion of whole lines makes no new occurrence of a text without newlines.
use radsat_linux.Base.{
  ℕ, ◌≡◌, refl, sym, ap, subst, ◌∙◌, true, false, [], ◌∷◌, ◌++◌, Bytes, append_assoc, drop, length,
  Bool-cases, inl, inr, ◌⊎◌,
}
use radsat_linux.Tools.Text.{starts_with, occurs_in, replace_first}
use radsat_linux.Tools.Text.Replace.{starts_with-split, replace_cases}
use radsat_linux.Tools.Text.Occurs.{plain, occurs_in-parts}
use radsat_linux.Tools.Tree.Marks.{occurs_in-left, occurs_in-right}

pub occurs_in_trans :
    (mark big t : Bytes)
    → occurs_in mark big ≡ true
    → occurs_in big t ≡ true
    → occurs_in mark t ≡ true
unfolding occurs_in starts_with
occurs_in_trans mark [] [] h k = h
occurs_in_trans mark (b ∷ big) [] h k = absurd (cc k)
occurs_in_trans mark big (c ∷ t) h k = elim (Bool-cases (starts_with big (c ∷ t))) [
  | inl here ↦
      subst (λ s. occurs_in mark s ≡ true) (sym (starts_with-split big (c ∷ t) here))
        (occurs_in-left mark big (drop (length big) (c ∷ t)) h)
  | inr later ↦ occurs_in-right mark (c ∷ []) t (occurs_in_trans mark big t h (rw later at k))
]

-- the lines `mid` put in front of `old`
abbrev pub framed : Bytes → Bytes → Bytes
framed mid old = 10 ∷ (mid ++ 10 ∷ old)

framed_assoc :
    (pre mid old post : Bytes)
    → pre ++ framed mid old ++ post ≡ pre ++ 10 ∷ (mid ++ 10 ∷ (old ++ post))
framed_assoc pre mid old post =
    append_assoc pre (framed mid old) post
    ∙ ap (λ s. pre ++ 10 ∷ s) (append_assoc mid (10 ∷ old) post)

pub replace_first-absent :
    (old new t : Bytes) → occurs_in old t ≡ false → replace_first old new t ≡ t
unfolding replace_first occurs_in
replace_first-absent old new [] h = rw h refl
replace_first-absent old new (c ∷ t) h = elim (Bool-cases (starts_with old (c ∷ t))) [
  | inl here ↦ absurd (cc (rw here at h))
  | inr differs ↦ rw differs (ap (λ s. c ∷ s) (replace_first-absent old new t (rw differs at h)))
]

inserted_part :
    (a : ℕ) (mark old mid pre post : Bytes)
    → plain (a ∷ mark) ≡ true
    → occurs_in (a ∷ mark) (pre ++ framed mid old ++ post) ≡ true
    → (occurs_in (a ∷ mark) mid ≡ true) ⊎ (occurs_in (a ∷ mark) (pre ++ old ++ post) ≡ true)
inserted_part a mark old mid pre post p h =
    let found = subst (λ s. occurs_in (a ∷ mark) s ≡ true) (framed_assoc pre mid old post) h in
    elim (occurs_in-parts a mark pre (mid ++ 10 ∷ (old ++ post)) p found) [
      | inl left ↦
          inr (occurs_in-left (a ∷ mark) (pre ++ old) post (occurs_in-left (a ∷ mark) pre old left))
      | inr right ↦ elim (occurs_in-parts a mark mid (old ++ post) p right) [
        | inl inside ↦ inl inside
        | inr behind ↦ inr (
            subst (λ s. occurs_in (a ∷ mark) s ≡ true) (sym (append_assoc pre old post))
              (occurs_in-right (a ∷ mark) pre (old ++ post) behind))
      ]
    ]

pub replace_first-framed :
    (a : ℕ) (mark old mid t : Bytes)
    → plain (a ∷ mark) ≡ true
    → occurs_in (a ∷ mark) mid ≡ false
    → occurs_in (a ∷ mark) t ≡ false
    → occurs_in (a ∷ mark) (replace_first old (framed mid old) t) ≡ false
replace_first-framed a mark old mid t p hm ht = elim (replace_cases old (framed mid old) t) [
  | inr (absent, never) ↦
      ap (occurs_in (a ∷ mark)) (replace_first-absent old (framed mid old) t absent) ∙ ht
  | inl (pre, post, split, found, replaced, first) ↦
      elim (Bool-cases (occurs_in (a ∷ mark) (pre ++ framed mid old ++ post))) [
        | inr clean ↦ ap (occurs_in (a ∷ mark)) replaced ∙ clean
        | inl dirty ↦ elim (inserted_part a mark old mid pre post p dirty) [
          | inl inside ↦ absurd (cc (inside, hm))
          | inr before ↦ absurd (cc (sym (ap (occurs_in (a ∷ mark)) split ∙ before) ∙ ht))
        ]
      ]
]
