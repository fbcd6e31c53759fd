-- ===== src/Tools/Tree/Marks.antt =====
-- An edit leaves its mark, or leaves the text alone.
use radsat_linux.Base.{
  ℕ, ◌-◌, ◌≡◌, refl, ap, ◌∙◌, true, false, [], ◌∷◌, ◌++◌, Option, none, some, Bytes, arith, length,
  drop, Bool-cases, Option-cases, subst, inl, inr, ◌⊎◌,
}
use radsat_linux.Tools.Text.{starts_with, occurs_in, replace_first}
use radsat_linux.Tools.Tree.{replace_all, after_first, behind, sub_between, unless}

pub starts_with-longer :
    (mark s t : Bytes) → starts_with mark s ≡ true → starts_with mark (s ++ t) ≡ true
unfolding starts_with
starts_with-longer [] s t h = refl
starts_with-longer (a ∷ mark) [] t h = cc
starts_with-longer (a ∷ mark) (b ∷ s) t h = ground (arith, starts_with-longer mark s t)

occurs_in-start : (mark s : Bytes) → starts_with mark s ≡ true → occurs_in mark s ≡ true
unfolding occurs_in
occurs_in-start mark [] h = h
occurs_in-start mark (c ∷ s) h = rw h refl

pub occurs_in-left : (mark s t : Bytes) → occurs_in mark s ≡ true → occurs_in mark (s ++ t) ≡ true
unfolding occurs_in
occurs_in-left mark [] t h = occurs_in-start mark t (starts_with-longer mark [] t h)
occurs_in-left mark (c ∷ s) t h = elim (Bool-cases (starts_with mark (c ∷ s))) [
  | inl here ↦ occurs_in-start mark (c ∷ s ++ t) (starts_with-longer mark (c ∷ s) t here)
  | inr later ↦ ground (arith, occurs_in-left mark s t)
]

pub occurs_in-right : (mark s t : Bytes) → occurs_in mark t ≡ true → occurs_in mark (s ++ t) ≡ true
unfolding occurs_in
occurs_in-right mark [] t h = h
occurs_in-right mark (c ∷ s) t h = ground (arith, occurs_in-right mark s t h)

abbrev pub Marks : Bytes → (Bytes → Bytes) → Type 0
Marks mark edit = (t : Bytes) → (occurs_in mark (edit t) ≡ true) ⊎ (edit t ≡ t)

module _ (mark old new : Bytes) (h : occurs_in mark new ≡ true) where
  pub replace_first-Marks : Marks mark (replace_first old new)
  unfolding replace_first
  replace_first-Marks [] = elim (Bool-cases (starts_with old [])) [
    | inl here ↦ inl (rw here h)
    | inr differs ↦ inr (rw differs refl)
  ]
  replace_first-Marks (c ∷ t) = elim (Bool-cases (starts_with old (c ∷ t))) [
    | inl here ↦ inl (rw here (occurs_in-left mark new (drop (length old) (c ∷ t)) h))
    | inr differs ↦ elim (replace_first-Marks t) [
      | inl marked ↦
          inl (rw differs (occurs_in-right mark (c ∷ []) (replace_first old new t) marked))
      | inr same ↦ inr (rw differs (ap (λ s. c ∷ s) same))
    ]
  ]

  pub replace_all-Marks : Marks mark (replace_all old new 0)
  unfolding replace_all
  replace_all-Marks [] = inr refl
  replace_all-Marks (c ∷ t) = elim (Bool-cases (starts_with old (c ∷ t))) [
    | inl here ↦ inl (
        rw (here, replace_all) (occurs_in-left mark new (replace_all old new (length old - 1) t) h))
    | inr differs ↦ elim (replace_all-Marks t) [
      | inl marked ↦ inl (
          rw (differs, replace_all)
            (occurs_in-right mark (c ∷ []) (replace_all old new 0 t) marked))
      | inr same ↦ inr (rw (differs, replace_all) (ap (λ s. c ∷ s) same))
    ]
  ]

  behind-marks :
      (c : ℕ) (o : Option Bytes) (r : Bytes)
      → ((t : Bytes) → o ≡ some t → occurs_in mark t ≡ true)
      → behind c o ≡ some r
      → occurs_in mark r ≡ true
  behind-marks c none r ih e = cc
  behind-marks c (some t) r ih e =
      let same : c ∷ t ≡ r = cc in
      subst (λ s. occurs_in mark s ≡ true) same (occurs_in-right mark (c ∷ []) t (ih t refl))

  placed-marks : (rest r : Bytes) → some (new ++ rest) ≡ some r → occurs_in mark r ≡ true
  placed-marks rest r e =
      let same : new ++ rest ≡ r = cc in
      subst (λ s. occurs_in mark s ≡ true) same (occurs_in-left mark new rest h)

  pub sub_between-marks :
      (start end t r : Bytes) → sub_between start end new t ≡ some r → occurs_in mark r ≡ true
  unfolding sub_between
  sub_between-marks start end [] r e = cc
  sub_between-marks start end (c ∷ t) r e =
      let later = behind-marks c (sub_between start end new t) r (sub_between-marks start end t) in
      elim (Bool-cases (starts_with start (c ∷ t))) [
        | inr differs ↦ later (rw differs at e)
        | inl here ↦ elim (Option-cases (after_first end (drop (length start) (c ∷ t)))) [
          | inl open_end ↦ later (rw (here, open_end) at e)
          | inr (rest, closed) ↦ placed-marks rest r (rw (here, closed) at e)
        ]
      ]

pub compose-Marks :
    (mark : Bytes) (f g : Bytes → Bytes) → Marks mark f → Marks mark g → Marks mark (λ t. g (f t))
compose-Marks mark f g hf hg t = elim (hg (f t)) [
  | inl marked ↦ inl marked
  | inr same ↦ elim (hf t) [ inl marked ↦ inl (rw same marked) | inr same2 ↦ inr (same ∙ same2) ]
]

pub unless-found :
    (mark : Bytes) (edit : Bytes → Bytes) (t : Bytes)
    → occurs_in mark t ≡ true
    → unless mark edit t ≡ t
unfolding unless
unless-found mark edit t h = rw h refl

pub unless-absent :
    (mark : Bytes) (edit : Bytes → Bytes) (t : Bytes)
    → occurs_in mark t ≡ false
    → unless mark edit t ≡ edit t
unfolding unless
unless-absent mark edit t h = rw h refl

-- an edit that leaves its mark is made once
pub unless-again :
    (mark : Bytes) (edit : Bytes → Bytes)
    → Marks mark edit
    → (t : Bytes) → unless mark edit (unless mark edit t) ≡ unless mark edit t
unless-again mark edit marks t = elim (Bool-cases (occurs_in mark t)) [
  | inl found ↦ ap (unless mark edit) (unless-found mark edit t found)
  | inr absent ↦ elim (marks t) [
    | inl marked ↦ rw (unless-absent mark edit t absent) (unless-found mark edit (edit t) marked)
    | inr same ↦ ap (unless mark edit) (unless-absent mark edit t absent ∙ same)
  ]
]
