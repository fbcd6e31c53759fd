-- ===== src/Tools/Text/Clear.antt =====
-- A first occurrence: what stands in front of it, and the operations on texts that look for it.
use radsat_linux.Base.{
  ℕ, suc, ◌≤◌, ◌≡◌, refl, sym, ap, ◌∙◌, true, false, [], ◌∷◌, ◌++◌, some, Bytes, append_assoc,
  arith, length, drop, Bool-cases, inl, inr,
}
use radsat_linux.Tools.Text.{starts_with, occurs_in, replace_first, must_replace}
use radsat_linux.Tools.Text.Replace.{starts_with-append, starts_with-split}
use radsat_linux.Tools.Text.Occurs.{starts_with_trans}
use radsat_linux.Tools.Tree.{after_first}
use radsat_linux.Tools.Tree.Marks.{occurs_in-right}

-- no occurrence of `old` begins in front of the one behind `pre`
unfoldable pub Clear : Bytes → Bytes → Type 0
Clear old [] = Unit
Clear old (c ∷ pre) = (starts_with old (c ∷ (pre ++ old)) ≡ false) × Clear old pre

pub starts_with-prefix :
    (old s t : Bytes) → length old ≤ length s → starts_with old (s ++ t) ≡ starts_with old s
unfolding starts_with
starts_with-prefix [] s t h = refl
starts_with-prefix (a ∷ old) [] t h = absurd (omega arith)
starts_with-prefix (a ∷ old) (b ∷ s) t h = rw (starts_with-prefix old s t (omega arith)) refl

length-le : (s t : Bytes) → length t ≤ length (s ++ t)
length-le [] t = omega arith
length-le (c ∷ s) t = omega (arith, length-le s t)

-- whether `old` begins at a place is settled by what lies in front of the end of the next one
pub starts_with-Clear :
    (old pre post : Bytes) (c : ℕ)
    → starts_with old (c ∷ (pre ++ (old ++ post))) ≡ starts_with old (c ∷ (pre ++ old))
starts_with-Clear old pre post c =
    ap (λ s. starts_with old (c ∷ s)) (sym (append_assoc pre old post))
    ∙ starts_with-prefix old (c ∷ (pre ++ old)) post (omega (arith, length-le pre old))

-- the first occurrence of a text that occurs
pub first_occurrence :
    (a : ℕ) (old text : Bytes)
    → occurs_in (a ∷ old) text ≡ true
    → (pre : Bytes) × (post : Bytes) × (text ≡ pre ++ ((a ∷ old) ++ post)) × Clear (a ∷ old) pre
unfolding occurs_in starts_with Clear
first_occurrence a old [] h = absurd (cc h)
first_occurrence a old (c ∷ text) h = elim (Bool-cases (starts_with (a ∷ old) (c ∷ text))) [
  | inl here ↦ ([], _, starts_with-split (a ∷ old) (c ∷ text) here, tt)
  | inr differs ↦
      let (pre, post, split, clear) = first_occurrence a old text (rw differs at h) in
      (
        c ∷ pre,
        post,
        ap (λ s. c ∷ s) split,
        (
          sym (starts_with-Clear (a ∷ old) pre post c)
              ∙ ap (λ s. starts_with (a ∷ old) (c ∷ s)) (sym split)
              ∙ differs,
          clear,
        ),
      )
]

length-end : (s : Bytes) (x : ℕ) → length (s ++ x ∷ []) ≤ suc (length s)
length-end [] x = omega arith
length-end (c ∷ s) x = omega (arith, length-end s x)

-- nothing occurs in front of a text, if it does not occur before its last character
pub Clear-occurs_in :
    (init : Bytes) (x : ℕ) (pre : Bytes)
    → occurs_in (init ++ x ∷ []) (pre ++ init) ≡ false
    → Clear (init ++ x ∷ []) pre
unfolding Clear occurs_in
Clear-occurs_in init x [] h = tt
Clear-occurs_in init x (c ∷ pre) h =
    elim (Bool-cases (starts_with (init ++ x ∷ []) (c ∷ (pre ++ init)))) [
      | inl here ↦ absurd (cc (rw here at h))
      | inr differs ↦ (
        ap (λ s. starts_with (init ++ x ∷ []) (c ∷ s)) (sym (append_assoc pre init (x ∷ [])))
            ∙ starts_with-prefix (init ++ x ∷ []) (c ∷ (pre ++ init)) (x ∷ [])
                (omega (arith, length-end init x, length-le pre init))
            ∙ differs,
        Clear-occurs_in init x pre (rw differs at h),
      )
    ]

-- a longer text that begins alike does not occur there either
pub Clear-longer : (old r pre : Bytes) → Clear old pre → Clear (old ++ r) pre
unfolding Clear
Clear-longer old r [] h = tt
Clear-longer old r (c ∷ pre) (differs, clear) = (
  elim (Bool-cases (starts_with (old ++ r) (c ∷ (pre ++ (old ++ r))))) [
    | inl here ↦ absurd (
        cc (
          starts_with_trans old (old ++ r) (c ∷ (pre ++ (old ++ r))) (starts_with-append old r)
              here,
          starts_with-Clear old pre r c,
          differs,
        ))
    | inr later ↦ later
  ],
  Clear-longer old r pre clear,
)

drop-length : (s t : Bytes) → drop (length s) (s ++ t) ≡ t
drop-length [] t = refl
drop-length (c ∷ s) t = drop-length s t

module _ (a : ℕ) (old : Bytes) where
  pub replace_first-Clear :
      (new pre post : Bytes)
      → Clear (a ∷ old) pre
      → replace_first (a ∷ old) new (pre ++ ((a ∷ old) ++ post)) ≡ pre ++ (new ++ post)
  unfolding replace_first Clear
  replace_first-Clear new [] post h =
      rw (starts_with-append (a ∷ old) post) (ap (λ s. new ++ s) (drop-length (a ∷ old) post))
  replace_first-Clear new (c ∷ pre) post (differs, clear) =
      rw (starts_with-Clear (a ∷ old) pre post c, differs)
        (ap (λ s. c ∷ s) (replace_first-Clear new pre post clear))

  occurs_in-there : (pre post : Bytes) → occurs_in (a ∷ old) (pre ++ ((a ∷ old) ++ post)) ≡ true
  unfolding occurs_in
  occurs_in-there pre post =
      occurs_in-right (a ∷ old) pre ((a ∷ old) ++ post)
        (rw (starts_with-append (a ∷ old) post) refl)

  pub must_replace-Clear :
      (new pre post : Bytes)
      → Clear (a ∷ old) pre
      → must_replace (pre ++ ((a ∷ old) ++ post)) (a ∷ old) new ≡ some (pre ++ (new ++ post))
  unfolding must_replace
  must_replace-Clear new pre post h =
      rw (occurs_in-there pre post) (ap (λ s. some s) (replace_first-Clear new pre post h))

  pub after_first-Clear :
      (pre post : Bytes)
      → Clear (a ∷ old) pre
      → after_first (a ∷ old) (pre ++ ((a ∷ old) ++ post)) ≡ some post
  unfolding after_first Clear
  after_first-Clear [] post h =
      rw (starts_with-append (a ∷ old) post) (ap (λ s. some s) (drop-length (a ∷ old) post))
  after_first-Clear (c ∷ pre) post (differs, clear) =
      rw (starts_with-Clear (a ∷ old) pre post c, differs) (after_first-Clear pre post clear)
