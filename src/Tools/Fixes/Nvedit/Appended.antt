-- ===== src/Tools/Fixes/Nvedit/Appended.antt =====
-- The hunk for cmd/nvedit.c passes the check at the end of the script.
use radsat_linux.Base.{
  ℕ, zero, suc, ◌-◌, ◌≤◌, ◌≡◌, refl, sym, ap, ◌∙◌, subst, Bool, true, false, not, ◌&&◌, List, [],
  ◌∷◌, ◌++◌, Option, none, some, Bytes, codes, append_assoc, arith, length, ◌==◌, Bool-cases, inl,
  inr,
}
use radsat_linux.Base.Maybe.{some_inj}
use radsat_linux.Tools.Text.{starts_with, occurs_in, replace_first, splitlines}
use radsat_linux.Tools.Text.Replace.{replace_cases}
use radsat_linux.Tools.Tree.{replace_all}
use radsat_linux.Tools.Tree.Marks.{occurs_in-left, occurs_in-right}
use radsat_linux.Tools.Whitelist.Main.{rstrip}
use radsat_linux.Tools.Diff.{concat}
use radsat_linux.Tools.Diff.Patch.{udiff, git_diff, git_line, retitled}
use radsat_linux.Tools.Fixes.Nvedit.Needles
use radsat_linux.Tools.Fixes.Nvedit.{path, edit_nvedit, main}

unfoldable has_no : ℕ → Bytes → Bool
has_no x [] = true
has_no x (c ∷ s) = not (c == x) && has_no x s

-- a text without `x` that begins in front of an `x` ends there
starts_with-fits :
    (x : ℕ) (old s rest : Bytes)
    → has_no x old ≡ true
    → starts_with old (s ++ x ∷ rest) ≡ true
    → length old ≤ length s
unfolding has_no starts_with
starts_with-fits x [] s rest h e = omega arith
starts_with-fits x (a ∷ old) [] rest h e = absurd (ground arith)
starts_with-fits x (a ∷ old) (b ∷ s) rest h e =
    let ih = starts_with-fits x old s rest (ground arith) (ground arith) in omega (arith, ih)

-- A part that begins with a character that `old` does not have, and at whose places `old` does not begin, stays.
replace_all-part :
    (x : ℕ) (old new part : Bytes)
    → has_no x old ≡ true
    → ((post : Bytes)
        → (after : Bytes) × (replace_all old new 0 (x ∷ (part ++ post)) ≡ x ∷ (part ++ after)))
    → (skip : ℕ) (pre post : Bytes) → skip ≤ length pre
    → (before : Bytes) × (after : Bytes) × (replace_all old new skip (pre ++ (x ∷ (part ++ post)))
        ≡ before ++ (x ∷ (part ++ after)))
unfolding replace_all
replace_all-part x old new part absent passed zero [] post h =
    let (after, e) = passed post in ([], after, e)
replace_all-part x old new part absent passed (suc skip) [] post h = absurd (omega arith)
replace_all-part x old new part absent passed (suc skip) (c ∷ pre) post h =
    replace_all-part x old new part absent passed skip pre post (omega arith)
replace_all-part x old new part absent passed zero (c ∷ pre) post h =
    elim (Bool-cases (starts_with old (c ∷ (pre ++ (x ∷ (part ++ post)))))) [
      | inl here ↦
          let fits = starts_with-fits x old (c ∷ pre) (part ++ post) absent here in
          let (before, after, e) =
            replace_all-part x old new part absent passed (length old - 1) pre post (omega arith) in
          (
            new ++ before,
            after,
            rw (here, replace_all)
                (ap (λ s. new ++ s) e ∙ sym (append_assoc new before (x ∷ (part ++ after)))),
          )
      | inr differs ↦
          let (before, after, e) =
            replace_all-part x old new part absent passed zero pre post (omega arith) in
          (c ∷ before, after, rw (differs, replace_all) (ap (λ s. c ∷ s) e))
    ]

abbrev part : Bytes
part =
    codes
      "!defined(CONFIG_ENV_IS_IN_UBI)\t\t&& \\\n\t!defined(CONFIG_ENV_IS_IN_MRAM)\t&& \\\n\t!defined(CONFIG_ENV_IS_NOWHERE)\n"

abbrev mark : Bytes
mark = codes "CONFIG_ENV_IS_IN_MRAM"

message_tabs : has_no b'\t' Needles.message ≡ true
unfolding has_no
message_tabs = refl

message_passes :
    (post : Bytes)
    → (after : Bytes) × (replace_all Needles.message Needles.message_mram 0 (b'\t' ∷ (part ++ post))
        ≡ b'\t' ∷ (part ++ after))
unfolding replace_all starts_with
message_passes post = (_, refl)

part_marked : occurs_in mark (b'\t' ∷ part) ≡ true
unfolding occurs_in starts_with
part_marked = refl

stops : (t : Bytes) → occurs_in Needles.env_list t ≡ false → edit_nvedit t ≡ none
unfolding edit_nvedit
stops t h = rw (h, edit_nvedit) refl

goes_on :
    (t : Bytes)
    → occurs_in Needles.env_list t ≡ true
    → edit_nvedit t
      ≡ some (
          replace_all Needles.message Needles.message_mram 0
            (replace_first Needles.env_list Needles.env_list_mram t))
unfolding edit_nvedit
goes_on t h = rw (h, edit_nvedit) refl

-- The edit leaves the name of the new environment in the text.
edit_nvedit-marked : (t t2 : Bytes) → edit_nvedit t ≡ some t2 → occurs_in mark t2 ≡ true
unfolding edit_nvedit
edit_nvedit-marked t t2 e = elim (replace_cases Needles.env_list Needles.env_list_mram t) [
  | inr (absent, never) ↦ absurd (cc (stops t absent, e))
  | inl (pre, post, split, found, replaced, first) ↦
      let (before, after, kept) =
        replace_all-part b'\t' Needles.message Needles.message_mram part message_tabs message_passes
          0 pre post (omega arith) in
      let edited : replace_all Needles.message Needles.message_mram 0
            (replace_first Needles.env_list Needles.env_list_mram t)
          ≡ before ++ (b'\t' ∷ (part ++ after)) =
        ap (replace_all Needles.message Needles.message_mram 0)
          (replaced ∙ append_assoc pre Needles.env_list_mram post)
        ∙ kept in
      subst (λ s. occurs_in mark s ≡ true) (sym edited ∙ some_inj (sym (goes_on t found) ∙ e))
        (occurs_in-right mark before (b'\t' ∷ (part ++ after))
          (occurs_in-left mark (b'\t' ∷ part) after part_marked))
]

path_named : occurs_in path (git_line path) ≡ true
unfolding occurs_in starts_with
path_named = refl

git_diff-path :
    (lines : List Bytes) (c : ℕ) (hunk : Bytes)
    → git_diff path lines ≡ some (c ∷ hunk)
    → occurs_in path (c ∷ hunk) ≡ true
unfolding git_diff
git_diff-path [] c hunk e = absurd (cc (some_inj e))
git_diff-path (a ∷ []) c hunk e = absurd (cc e)
git_diff-path (a ∷ b ∷ lines) c hunk e =
    subst (λ s. occurs_in path s ≡ true) (some_inj e)
      (occurs_in-left path (git_line path) (concat (retitled path (a ∷ b ∷ lines))) path_named)

abbrev pub with_part : Bytes → Bytes → Bytes
with_part p6 hunk = rstrip p6 ++ (codes "\n" ++ (hunk ++ codes "\n"))

-- The script on a patch 0006 that does not name cmd/nvedit.c yet, where diff finds a difference: if patch makes of the base
-- the text that the script edited, then the script appends the hunk behind the patch's last line and gets through its
-- check at the end; and a second run, whatever the base is then, leaves the patch as it is.
pub main-Appended :
    (apply : Bytes → Option Bytes) (diff : Bytes → Bytes → Bytes) (p6 t t2 : Bytes) (c : ℕ)
    (hunk : Bytes) (base : Option Bytes)
    → occurs_in path p6 ≡ false
    → edit_nvedit t ≡ some t2
    → udiff diff t t2 path ≡ some (c ∷ hunk)
    → apply (with_part p6 (c ∷ hunk)) ≡ some t2
    → (main apply diff (some t) p6 ≡ (with_part p6 (c ∷ hunk), true))
      × (main apply diff base (with_part p6 (c ∷ hunk)) ≡ (with_part p6 (c ∷ hunk), true))
unfolding main udiff
main-Appended apply diff p6 t t2 c hunk base new edited differs applied =
    let there = occurs_in-right path (rstrip p6) (codes "\n" ++ ((c ∷ hunk) ++ codes "\n")) (
      occurs_in-right path (codes "\n") ((c ∷ hunk) ++ codes "\n") (
        occurs_in-left path (c ∷ hunk) (codes "\n")
          (git_diff-path (splitlines (diff t t2)) c hunk differs))) in
    (rw (new, edited, differs, applied, edit_nvedit-marked t t2 edited) refl, rw (there, main) refl)
