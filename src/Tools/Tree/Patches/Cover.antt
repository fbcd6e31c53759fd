-- ===== src/Tools/Tree/Patches/Cover.antt =====
-- The patches that `main` writes make the tree of both stages.
use radsat_linux.Base.{
  append-nil, bytes_eq_refl, none, ◌≡◌, ◌≢◌, refl, sym, ap, ◌∙◌, subst, true, List, [], ◌∷◌, ◌++◌,
  Option, some, Bytes, codes, Option-cases, inl, inr,
}
use radsat_linux.Base.Maybe.{◌>>=◌, some_inj}
use radsat_linux.Tools.Text.{splitlines}
use radsat_linux.Tools.Diff.{newfile_diff}
use radsat_linux.Tools.Diff.Patch.{git_diff, udiff}
use radsat_linux.Tools.Tree.{Tree, mram, fram, mram_tree, fram_tree, edit_header, edit_tree}
use radsat_linux.Tools.Tree.Again.{edit_makefile-again}
use radsat_linux.Tools.Tree.Heads
use radsat_linux.Tools.Tree.Patches
use radsat_linux.Tools.Diff.NewFile.{only_newlines, end_text}
use radsat_linux.Tools.Tree.Patches.Parts.{
  Part, created, changed, printed, file_at, put, make, Applies,
}
use radsat_linux.Tools.Tree.Patches.{
  Outcome, wrote_both, File, changed_files, udiffs, mram_patch, fram_patch, verify, main,
}

-- `diff -u` prints nothing, or the two lines of its head first
abbrev pub HasHead : (Bytes → Bytes → Bytes) → Type 0
HasHead diff = (a b line : Bytes) → splitlines (diff a b) ≢ line ∷ []

git_diff_runs :
    (rel : Bytes) (lines : List Bytes)
    → ((line : Bytes) → lines ≢ line ∷ [])
    → (d : Bytes) × (git_diff rel lines ≡ some d)
unfolding git_diff
git_diff_runs rel [] h = ([], refl)
git_diff_runs rel (a ∷ []) h = absurd (h a refl)
git_diff_runs rel (a ∷ b ∷ lines) h = (_, refl)

-- the second stage changes fram_mission.c and board.c alone
abbrev pub covered : Tree → Tree → Tree
covered before edited = record before {
  fram_mission_c = edited.fram_mission_c;
  board_c = edited.board_c;
}

fram_tree-covered :
    (env_mram fram_mission header : Bytes) (base : Tree)
    → covered
        (mram_tree env_mram base header)
        (fram_tree fram_mission (mram_tree env_mram base header))
      ≡ fram_tree fram_mission (mram_tree env_mram base header)
fram_tree-covered env_mram fram_mission header base = rw (edit_makefile-again base.makefile) refl

module _ (diff : Bytes → Bytes → Bytes) (has_head : HasHead diff) where
  udiff_runs : (a b rel : Bytes) → (d : Bytes) × (udiff diff a b rel ≡ some d)
  unfolding udiff
  udiff_runs a b rel = git_diff_runs rel (splitlines (diff a b)) (has_head a b)

  udiffs_run : (files : List File) (a b : Tree) → (d : Bytes) × (udiffs diff files a b ≡ some d)
  unfolding udiffs
  udiffs_run [] a b = ([], refl)
  udiffs_run ((rel, text) ∷ files) a b =
      let (d, e) = udiff_runs (text a) (text b) rel in
      let (rest, e2) = udiffs_run files a b in (d ++ rest, rw (e, e2) refl)

  -- the parts for the files of the loop
  abbrev pub changes : List File → Tree → Tree → List Part
  changes [] a b = []
  changes ((rel, text) ∷ files) a b = changed rel (text a) (text b) ∷ changes files a b

  printed-changes :
      (files : List File) (a b : Tree) → printed diff (changes files a b) ≡ udiffs diff files a b
  unfolding printed udiffs
  printed-changes [] a b = refl
  printed-changes ((rel, text) ∷ files) a b = rw (printed-changes files a b) refl

  -- what the two patches are made of
  abbrev pub mram_parts : Bytes → Tree → Tree → List Part
  mram_parts env_mram base edited =
      created (codes "common/env_mram.c") env_mram ∷ changes changed_files base edited

  abbrev pub fram_parts : Bytes → Tree → Tree → List Part
  fram_parts fram_mission before edited =
      created (codes "common/fram_mission.c") fram_mission
      ∷ changed Patches.board_c_path before.board_c edited.board_c
      ∷ []

  mram_patch_runs :
      (base edited : Tree) (c : Bytes)
      → edited.env_mram_c ≡ some c
      → (d : Bytes) × (mram_patch diff base edited ≡ some (Heads.mram_head ++ d))
        × (printed diff (mram_parts c base edited) ≡ some d)
  unfolding mram_patch printed
  mram_patch_runs base edited c h =
      let (d, e) = udiffs_run changed_files base edited in
      (
        newfile_diff (codes "common/env_mram.c") c ++ d,
        rw (e, h) refl,
        rw (printed-changes changed_files base edited, e) refl,
      )

  fram_patch_runs :
      (before edited : Tree) (c : Bytes)
      → edited.fram_mission_c ≡ some c
      → (d : Bytes) × (fram_patch diff before edited ≡ some (Heads.fram_head ++ d))
        × (printed diff (fram_parts c before edited) ≡ some d)
  unfolding fram_patch printed
  fram_patch_runs before edited c h =
      let (d, e) = udiff_runs before.board_c edited.board_c Patches.board_c_path in
      (
        newfile_diff (codes "common/fram_mission.c") c ++ d,
        rw (e, h) refl,
        rw (e, append-nil d) refl,
      )

  -- the parts make the tree of their stage
  make-mram :
      (env_mram header : Bytes) (base : Tree)
      → base.env_mram_c ≡ none
      → only_newlines env_mram ≡ true
      → end_text env_mram ≡ env_mram
      → make (mram_parts env_mram base (mram_tree env_mram base header)) base
        ≡ some (mram_tree env_mram base header)
  unfolding make file_at put changed_files
  make-mram env_mram header base fresh newlines ended =
      rw
        (
          fresh,
          newlines,
          ended,
          bytes_eq_refl base.makefile,
          bytes_eq_refl base.header,
          bytes_eq_refl base.environment_h,
          bytes_eq_refl base.mux,
          bytes_eq_refl base.board_h,
          bytes_eq_refl base.board_c,
        )
        refl

  make-fram :
      (fram_mission : Bytes) (before edited : Tree)
      → before.fram_mission_c ≡ none
      → only_newlines fram_mission ≡ true
      → end_text fram_mission ≡ fram_mission
      → make (fram_parts fram_mission before edited) before
        ≡ some (record before { fram_mission_c = some fram_mission; board_c = edited.board_c })
  unfolding make file_at put
  make-fram fram_mission before edited fresh newlines ended =
      rw (fresh, newlines, ended, bytes_eq_refl before.board_c) refl

  module _ (apply : Bytes → Tree → Option Tree) where
    -- both patches written and seen to apply, and the tree that they make
    abbrev pub Verified : Bytes → Bytes → Tree → Tree → Type 0
    Verified env_mram fram_mission base edited =
        (p6 : Bytes) × (p7 : Bytes) × (main diff apply env_mram fram_mission (some base)
          ≡ wrote_both p6 p7 true)
        × ((apply p6 base >>= apply p7) ≡ some edited)

    -- `patch` makes the changes that are printed in the two patches
    abbrev pub AppliesBoth : Bytes → Bytes → Tree → Tree → Tree → Type 0
    AppliesBoth env_mram fram_mission base before edited =
        Applies diff apply Heads.mram_head (mram_parts env_mram base before) base
        × Applies diff apply Heads.fram_head (fram_parts fram_mission before edited) before

    -- a text that is in a patch as it is, with the newline at its end
    abbrev pub IsPlainFile : Bytes → Type 0
    IsPlainFile text = (only_newlines text ≡ true) × (end_text text ≡ text)

    runs :
        (env_mram fram_mission header : Bytes) (base : Tree)
        → edit_header base.header ≡ some header
        → base.env_mram_c ≡ none
        → base.fram_mission_c ≡ none
        → IsPlainFile env_mram
        → IsPlainFile fram_mission
        → AppliesBoth env_mram fram_mission base
            (mram_tree env_mram base header)
            (fram_tree fram_mission (mram_tree env_mram base header))
        → Verified env_mram fram_mission base
            (fram_tree fram_mission (mram_tree env_mram base header))
    unfolding main edit_tree verify
    runs env_mram fram_mission header base h new_mram new_fram plain_mram plain_fram both =
        let before = mram_tree env_mram base header in
        let edited = fram_tree fram_mission before in
        let (d6, e6, printed6) = mram_patch_runs base before env_mram refl in
        let (d7, e7, printed7) = fram_patch_runs before edited fram_mission refl in
        let a6 =
          both.0 d6 before printed6
            (make-mram env_mram header base new_mram plain_mram.0 plain_mram.1) in
        let a7 = both.1 d7 edited printed7 (
          make-fram fram_mission before edited new_fram plain_fram.0 plain_fram.1
          ∙ ap (λ t. some t) (fram_tree-covered env_mram fram_mission header base)) in
        (
          Heads.mram_head ++ d6,
          Heads.fram_head ++ d7,
          rw (h, edit_tree, e6, e7, a6, a7) refl,
          rw (a6, a7) refl,
        )

    -- If both stages' edits of a tree without the two new files go through, and the two texts have no line ends but newlines
    -- and one at their end, `main` writes both patches and sees them apply, and the two patches one after the
    -- other make the tree of both stages. The conditions on the other programs: an output of `diff -u` is empty or begins with two
    -- lines, and `patch` makes the changes that a patch is printed from, one file after another, where they fit.
    pub main-Verified :
        (env_mram fram_mission : Bytes) (base after_mram after_fram : Tree)
        → edit_tree env_mram fram_mission mram base ≡ some after_mram
        → edit_tree env_mram fram_mission fram after_mram ≡ some after_fram
        → base.env_mram_c ≡ none
        → base.fram_mission_c ≡ none
        → IsPlainFile env_mram
        → IsPlainFile fram_mission
        → AppliesBoth env_mram fram_mission base after_mram after_fram
        → Verified env_mram fram_mission base after_fram
    unfolding edit_tree
    main-Verified env_mram fram_mission base after_mram after_fram m f new_mram new_fram plain_mram
          plain_fram both =
        elim (Option-cases (edit_header base.header)) [
          | inl stops ↦ absurd (cc (rw (stops, edit_tree) at m))
          | inr (header, h) ↦
              let m2 : mram_tree env_mram base header ≡ after_mram =
                some_inj (rw (h, edit_tree) at m) in
              let f2 : fram_tree fram_mission (mram_tree env_mram base header) ≡ after_fram =
                ap (fram_tree fram_mission) m2 ∙ some_inj f in
              let here =
                subst
                  (λ t. AppliesBoth env_mram fram_mission base (mram_tree env_mram base header) t)
                  (sym f2)
                  (subst (λ t. AppliesBoth env_mram fram_mission base t after_fram) (sym m2)
                    both) in
              subst (λ t. Verified env_mram fram_mission base t) f2
                (runs env_mram fram_mission header base h new_mram new_fram plain_mram plain_fram
                  here)
        ]
