-- ===== src/Tools/Generate/Agrees.antt =====
-- The two scripts make the same tree.
use radsat_linux.Base.{
  ◌≤◌, ◌≡◌, refl, sym, ap, ◌∙◌, subst, true, false, ◌++◌, some, Bytes, length, take, drop,
  Bool-cases, inl, inr, Option-cases,
}
use radsat_linux.Base.Maybe.{bind_inv, bind_elim, some_inj}
use radsat_linux.Tools.Text.{starts_with, occurs_in, replace_first, must_replace}
use radsat_linux.Tools.Text.Positions.{positions}
use radsat_linux.Tools.Text.Once.{replace_all-once}
use radsat_linux.Tools.Text.Occurs.{plain}
use radsat_linux.Tools.Text.Insert.{occurs_in_trans, framed, replace_first-framed}
use radsat_linux.Tools.Tree.{unless, replace_all, Tree, mram, fram, mram_tree, fram_tree}
use radsat_linux.Tools.Tree as Rewrite
use radsat_linux.Tools.Tree.Needles
use radsat_linux.Tools.Tree.Marks.{unless-absent}
use radsat_linux.Tools.Tree.Again.{edit_makefile-again}
use radsat_linux.Tools.Generate
use radsat_linux.Tools.Generate.{must_unless}

pub must_replace_inv :
    (t old new r : Bytes) → must_replace t old new ≡ some r → replace_first old new t ≡ r
unfolding must_replace
must_replace_inv t old new r e = elim (Bool-cases (occurs_in old t)) [
  | inl found ↦ some_inj (rw (found, must_replace) at e)
  | inr missing ↦ absurd (cc (rw (missing, must_replace) at e))
]

-- where the first script goes on, its edit is that of the second
pub must_unless_inv :
    (mark old new t r : Bytes)
    → must_unless mark old new t ≡ some r
    → unless mark (replace_first old new) t ≡ r
unfolding must_unless unless
must_unless_inv mark old new t r e = elim (Bool-cases (occurs_in mark t)) [
  | inl found ↦ rw (found, unless) (some_inj (rw (found, must_unless) at e))
  | inr absent ↦ rw (absent, unless) (must_replace_inv t old new r (rw (absent, must_unless) at e))
]

makefile_agrees :
    (t r : Bytes)
    → length (positions Needles.object_line 0 t) ≤ 1
    → Generate.edit_makefile t ≡ some r
    → Rewrite.edit_makefile t ≡ r
unfolding Generate.edit_makefile Rewrite.edit_makefile unless
makefile_agrees t r once e =
    let same = replace_all-once b'o' (drop 1 Needles.object_line) Needles.object_lines 0 t once in
    rw (same, unless)
      (must_unless_inv Needles.env_mram_o Needles.object_line Needles.object_lines t r e)

board_h_agrees : (t r : Bytes) → Generate.edit_board_h t ≡ some r → Rewrite.edit_board_h t ≡ r
unfolding Generate.edit_board_h Rewrite.edit_board_h
board_h_agrees t r e =
    must_unless_inv Needles.enable_spi1_pin_mux Needles.declare_i2c0 Needles.declare_spi1 t r e

board_fram_agrees :
    (t r : Bytes) → Generate.edit_board_fram t ≡ some r → Rewrite.edit_board_fram t ≡ r
unfolding Generate.edit_board_fram Rewrite.edit_board_fram unless
board_fram_agrees t r e = elim (Bool-cases (occurs_in Needles.radsat_fram_overlay_env t)) [
  | inl found ↦ rw (found, unless) (some_inj (rw (found, Generate.edit_board_fram) at e))
  | inr absent ↦
      rw (absent, unless)
        (must_replace_inv (Needles.overlay_declaration ++ t) Needles.late_init
          Needles.late_init_overlay r (rw (absent, Generate.edit_board_fram) at e))
]

board_agrees :
    (t r : Bytes)
    → occurs_in Needles.enable_spi1_pin_mux t ≡ occurs_in Needles.enable_spi1_pin_mux_call t
    → Generate.edit_board t ≡ some r
    → Rewrite.edit_board_fram (Rewrite.edit_board_mram t) ≡ r
unfolding Generate.edit_board Rewrite.edit_board_mram unless
board_agrees t r guards e =
    let (t2, first, second) =
      bind_inv (must_unless Needles.enable_spi1_pin_mux Needles.init_i2c0 Needles.init_spi1 t)
        Generate.edit_board_fram r e in
    let same =
      must_unless_inv Needles.enable_spi1_pin_mux Needles.init_i2c0 Needles.init_spi1 t t2 first in
    ap Rewrite.edit_board_fram (rw (sym guards, unless) same) ∙ board_fram_agrees t2 r second

-- the pin tables, without the newlines around them
abbrev tables : Bytes
tables = take 596 (drop 1 Needles.spi1_pins)

tables-framed : Needles.spi1_pins ≡ framed tables Needles.spi0_pins
tables-framed = refl

tables_clean : occurs_in Needles.enable_spi1_pin_mux tables ≡ false
unfolding occurs_in starts_with
tables_clean = refl

mark_in_mark : occurs_in Needles.spi1_pin_mux Needles.enable_spi1_pin_mux ≡ true
unfolding occurs_in starts_with
mark_in_mark = refl

mark_plain : plain Needles.enable_spi1_pin_mux ≡ true
unfolding plain
mark_plain = refl

-- the guard inside the guard always holds
no_enable :
    (t : Bytes)
    → occurs_in Needles.spi1_pin_mux t ≡ false
    → occurs_in Needles.enable_spi1_pin_mux (replace_first Needles.spi0_pins Needles.spi1_pins t)
      ≡ false
no_enable t absent = elim (Bool-cases (occurs_in Needles.enable_spi1_pin_mux t)) [
  | inl found ↦ absurd (
      cc (
        sym (occurs_in_trans Needles.spi1_pin_mux Needles.enable_spi1_pin_mux t mark_in_mark found)
        ∙ absent))
  | inr clean ↦
      replace_first-framed b'e' (drop 1 Needles.enable_spi1_pin_mux) Needles.spi0_pins tables t
        mark_plain tables_clean clean
]

mux_agrees : (t r : Bytes) → Generate.edit_mux t ≡ some r → Rewrite.edit_mux t ≡ r
unfolding Generate.edit_mux Rewrite.edit_mux unless
mux_agrees t r e = elim (Bool-cases (occurs_in Needles.spi1_pin_mux t)) [
  | inl found ↦ rw (found, unless) (some_inj (rw (found, Generate.edit_mux) at e))
  | inr absent ↦
      let (t2, first, second) =
        bind_inv (must_replace t Needles.spi0_pins Needles.spi1_pins)
          (must_unless Needles.enable_spi1_pin_mux Needles.enable_i2c0 Needles.enable_spi1) r
          (rw (absent, Generate.edit_mux) at e) in
      let same = must_replace_inv t Needles.spi0_pins Needles.spi1_pins t2 first in
      let clean = sym (ap (occurs_in Needles.enable_spi1_pin_mux) same) ∙ no_enable t absent in
      let edit = replace_first Needles.enable_i2c0 Needles.enable_spi1 in
      rw (absent, unless)
        (ap edit same
          ∙ sym (unless-absent Needles.enable_spi1_pin_mux edit t2 clean)
          ∙ must_unless_inv Needles.enable_spi1_pin_mux Needles.enable_i2c0 Needles.enable_spi1 t2 r
              second)
]

-- a tree with the header and the new files of another
abbrev pub with_files : Tree → Tree → Tree
with_files edited t = record t {
  env_mram_c = edited.env_mram_c;
  fram_mission_c = edited.fram_mission_c;
  header = edited.header;
}

-- the tree that the second script makes, with the first script's header and new files
abbrev pub rewritten : Bytes → Bytes → Tree → Tree → Tree
rewritten env_mram' fram_mission' edited tree =
    with_files edited (fram_tree fram_mission' (mram_tree env_mram' tree edited.header))

-- what the first script puts together
abbrev pub generated : Bytes → Bytes → Tree → Bytes → Bytes → Bytes → Bytes → Bytes → Tree
generated env_mram fram_mission tree makefile header mux board_h board_c = record {
  makefile = makefile;
  env_mram_c = some env_mram;
  fram_mission_c = some fram_mission;
  header = header;
  environment_h = Rewrite.edit_environment tree.environment_h;
  mux = mux;
  board_h = board_h;
  board_c = board_c;
}

-- a run that goes through went through at every file
abbrev pub Parts : Bytes → Bytes → Tree → Tree → Type 0
Parts env_mram fram_mission tree edited =
    (makefile : Bytes) × (header : Bytes) × (mux : Bytes) × (board_h : Bytes) × (board_c : Bytes)
    × (Generate.edit_makefile tree.makefile ≡ some makefile)
    × (Generate.edit_mux tree.mux ≡ some mux)
    × (Generate.edit_board_h tree.board_h ≡ some board_h)
    × (Generate.edit_board tree.board_c ≡ some board_c)
    × (generated env_mram fram_mission tree makefile header mux board_h board_c ≡ edited)

pub edit_tree-Parts :
    (env_mram fram_mission : Bytes) (tree edited : Tree)
    → Generate.edit_tree env_mram fram_mission tree ≡ some edited
    → Parts env_mram fram_mission tree edited
unfolding Generate.edit_tree
edit_tree-Parts env_mram fram_mission tree edited e =
    bind_elim (Generate.edit_makefile tree.makefile) _ edited e λ makefile e1 k1.
      bind_elim (Generate.edit_header tree.header) _ edited k1 λ header e2 k2.
        bind_elim (Generate.edit_mux tree.mux) _ edited k2 λ mux e3 k3.
          bind_elim (Generate.edit_board_h tree.board_h) _ edited k3 λ board_h e4 k4.
            bind_elim (Generate.edit_board tree.board_c) _ edited k4 λ board_c e5 k5.
              (makefile, header, mux, board_h, board_c, e1, e3, e4, e5, some_inj k5)

agrees :
    (env_mram env_mram' fram_mission fram_mission' : Bytes) (tree edited : Tree)
    → Parts env_mram fram_mission tree edited
    → occurs_in Needles.enable_spi1_pin_mux tree.board_c
      ≡ occurs_in Needles.enable_spi1_pin_mux_call tree.board_c
    → length (positions Needles.object_line 0 tree.makefile) ≤ 1
    → rewritten env_mram' fram_mission' edited tree ≡ edited
agrees env_mram env_mram' fram_mission fram_mission' tree edited
      (makefile, header, mux, board_h, board_c, e1, e3, e4, e5, same) guards once =
    let makefile_same = makefile_agrees tree.makefile makefile once e1 in
    subst (λ t. rewritten env_mram' fram_mission' t tree ≡ t) same
      (rw
        (
          edit_makefile-again tree.makefile,
          makefile_same,
          mux_agrees tree.mux mux e3,
          board_h_agrees tree.board_h board_h e4,
          board_agrees tree.board_c board_c guards e5,
        )
        refl)

-- Each script has a text of its own for either of the two files that it adds, and one for the header. If the first script's
-- edits of a tree go through, the second script's edits of both stages, where they go through, end with the same tree but
-- for these three files. The conditions are that the tree's Makefile has the line for env_ext4.o at most once, since the
-- second script replaces every one of them, and that board.c names `enable_spi1_pin_mux` only where it calls it.
pub edit_tree-agrees :
    (env_mram env_mram' fram_mission fram_mission' : Bytes)
    (tree edited after_mram after_fram : Tree)
    → Generate.edit_tree env_mram fram_mission tree ≡ some edited
    → Rewrite.edit_tree env_mram' fram_mission' mram tree ≡ some after_mram
    → Rewrite.edit_tree env_mram' fram_mission' fram after_mram ≡ some after_fram
    → occurs_in Needles.enable_spi1_pin_mux tree.board_c
      ≡ occurs_in Needles.enable_spi1_pin_mux_call tree.board_c
    → length (positions Needles.object_line 0 tree.makefile) ≤ 1
    → with_files edited after_fram ≡ edited
unfolding Rewrite.edit_tree
edit_tree-agrees env_mram env_mram' fram_mission fram_mission' tree edited after_mram after_fram e m
      f guards once =
    let parts = edit_tree-Parts env_mram fram_mission tree edited e in
    elim (Option-cases (Rewrite.edit_header tree.header)) [
      | inl stops ↦ absurd (cc (rw (stops, Rewrite.edit_tree) at m))
      | inr (header, h) ↦
          let m2 : mram_tree env_mram' tree header ≡ after_mram =
            some_inj (rw (h, Rewrite.edit_tree) at m) in
          let f2 : fram_tree fram_mission' after_mram ≡ after_fram = some_inj f in
          ap {A = Tree} {B = Tree} (with_files edited) (sym f2)
          ∙ ap {A = Tree} {B = Tree} (λ t. with_files edited (fram_tree fram_mission' t)) (sym m2)
          ∙ agrees env_mram env_mram' fram_mission fram_mission' tree edited parts guards once
    ]
