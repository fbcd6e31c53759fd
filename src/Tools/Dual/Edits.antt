-- ===== src/Tools/Dual/Edits.antt =====
-- What the edits do to the files.
use radsat_linux.Base.{◌≡◌, sym, ap, ◌∙◌, ◌++◌, Option, some, Bytes, append_assoc, inl, inr}
use radsat_linux.Tools.Text.{must_replace}
use radsat_linux.Tools.Text.Replace.{must_replace_lem}
use radsat_linux.Tools.Dual.{edit_spl}
use radsat_linux.Tools.Dual.Needles

some_inj : {a b : Bytes} → ◌≡◌ {A = Option Bytes} (some a) (some b) → a ≡ b
some_inj h = cc

-- a replacement of `a ++ b` by `a ++ ins ++ b` is an insertion
insertion :
    (a ins b t r : Bytes)
    → must_replace t (a ++ b) (a ++ ins ++ b) ≡ some r
    → (pre : Bytes) × (post : Bytes) × (t ≡ pre ++ a ++ b ++ post)
      × (r ≡ pre ++ a ++ ins ++ b ++ post)
insertion a ins b t r e = elim (must_replace_lem t (a ++ b) (a ++ ins ++ b)) [
  | inl (pre, post, split, replaced, first) ↦ (
    pre,
    post,
    split ∙ ap (λ s. s ++ post) (sym (append_assoc pre a b)),
    some_inj (sym e ∙ replaced)
        ∙ ap (λ s. s ++ post)
            (sym (append_assoc pre (a ++ ins) b) ∙ ap (λ s. s ++ b) (sym (append_assoc pre a ins))),
  )
  | inr (stops, absent) ↦ absurd (cc (sym e ∙ stops))
]

-- If `edit_spl` goes through, it has only inserted: the fallback to the second image stands directly behind the load of
-- the primary image, and all the rest of the file is as it was.
pub edit_spl-insertion :
    (t r : Bytes)
    → edit_spl t ≡ some r
    → (pre : Bytes) × (post : Bytes) × (t ≡ pre ++ Needles.spl_load ++ Needles.spl_end ++ post)
      × (r ≡ pre ++ Needles.spl_load ++ Needles.spl_fallback ++ Needles.spl_end ++ post)
unfolding edit_spl
edit_spl-insertion t r e = insertion Needles.spl_load Needles.spl_fallback Needles.spl_end t r e
