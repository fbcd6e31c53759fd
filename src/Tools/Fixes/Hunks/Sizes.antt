-- ===== src/Tools/Fixes/Hunks/Sizes.antt =====
-- What the edits do to the hunk's sizes.
use radsat_linux.Base.{
  ℕ, ◌≡◌, refl, sym, ◌∙◌, Bool, true, false, List, [], ◌∷◌, ◌++◌, ◌⊎◌, Option, none, some, Bytes,
  arith, codes, inl, inr, drop,
}
use radsat_linux.Base.Maybe.{bind_elim, some_inj}
use radsat_linux.Tools.Text.{must_replace}
use radsat_linux.Tools.Text.Replace.{replace_cases}
use radsat_linux.Tools.Fixes.Hunks.{
  Outcome, wrote, finish, move_size, fix_env_size_spl, show_and_fix_envsize, fix_envsize2,
  fix_spl_env_nowhere, fix_spl_env_nowhere3, fix_spl_env_nowhere4,
}
use radsat_linux.Tools.Fixes.Hunks.Needles
use radsat_linux.Tools.Fixes.Hunks.Tally.{
  old_side, new_side, tally, ended, Shift, must_replace-tally, hunk_tallies, Even,
  must_replace-hunks,
}

pub data Script : Type 0 where
  env_size_spl : Script
  show_and_fix : Script
  envsize2 : Script
  spl_env_nowhere : Script
  spl_env_nowhere3 : Script
  spl_env_nowhere4 : Script

unfoldable pub run : (Bytes → Option Bytes) → Script → Bytes → Outcome
run apply env_size_spl t = fix_env_size_spl apply t
run apply show_and_fix t = show_and_fix_envsize apply t
run apply envsize2 t = fix_envsize2 apply t
run apply spl_env_nowhere t = fix_spl_env_nowhere t
run apply spl_env_nowhere3 t = fix_spl_env_nowhere3 apply t
run apply spl_env_nowhere4 t = fix_spl_env_nowhere4 apply t

finish_inv :
    (apply : Bytes → Option Bytes) (check : Bytes → Bool) (o : Option Bytes) (t2 : Bytes)
    (finished : Bool)
    → finish apply check o ≡ wrote t2 finished
    → o ≡ some t2
unfolding finish
finish_inv apply check none t2 finished e = absurd (cc e)
finish_inv apply check (some t) t2 finished e = cc e

-- one of the two sides
abbrev side_of : Bool → ℕ → Bool
side_of true = old_side
side_of false = new_side

size-Shift : (b : Bool) → Shift (side_of b) Needles.size_inside Needles.size_first 0 0
unfolding tally ended
size-Shift true true = (refl, refl)
size-Shift true false = (refl, refl)
size-Shift false true = (refl, refl)
size-Shift false false = (refl, refl)

-- one line more on the new side
intro-Shift : Shift new_side Needles.intro Needles.intro_with_size 0 1
unfolding tally ended
intro-Shift true = (refl, refl)
intro-Shift false = (refl, refl)

intro_old : Shift old_side Needles.intro Needles.intro_with_size 0 0
unfolding tally ended
intro_old true = (refl, refl)
intro_old false = (refl, refl)

-- and one less
offset-Shift : Shift new_side Needles.offset_and_size Needles.offset_alone 1 0
unfolding tally ended
offset-Shift true = (refl, refl)
offset-Shift false = (refl, refl)

offset_old : Shift old_side Needles.offset_and_size Needles.offset_alone 0 0
unfolding tally ended
offset_old true = (refl, refl)
offset_old false = (refl, refl)

block-Shift : (b : Bool) → Shift (side_of b) Needles.usbeth_block Needles.spl_block 0 0
unfolding tally ended
block-Shift true true = (refl, refl)
block-Shift true false = (refl, refl)
block-Shift false true = (refl, refl)
block-Shift false false = (refl, refl)

guard-Shift : (b : Bool) → Shift (side_of b) Needles.usbeth_guard Needles.spl_guard 0 0
unfolding tally ended
guard-Shift true true = (refl, refl)
guard-Shift true false = (refl, refl)
guard-Shift false true = (refl, refl)
guard-Shift false false = (refl, refl)

hunk-Shift : (b : Bool) → Shift (side_of b) Needles.usbeth_hunk Needles.spl_hunk 0 0
unfolding tally ended
hunk-Shift true true = (refl, refl)
hunk-Shift true false = (refl, refl)
hunk-Shift false true = (refl, refl)
hunk-Shift false false = (refl, refl)

kept :
    (b : Bool) (old new t r : Bytes)
    → Shift (side_of b) old new 0 0
    → must_replace t old new ≡ some r
    → tally (side_of b) true r ≡ tally (side_of b) true t
kept b old new t r shift e =
    let all = must_replace-tally (side_of b) old new t r 0 0 true shift e in omega arith

move_size-tally :
    (b : Bool) (t t2 : Bytes)
    → move_size t ≡ some t2
    → tally (side_of b) true t2 ≡ tally (side_of b) true t
unfolding move_size
move_size-tally true t t2 e =
    bind_elim (must_replace t Needles.intro Needles.intro_with_size) _ t2 e λ mid first second.
      kept true Needles.offset_and_size Needles.offset_alone mid t2 offset_old second
      ∙ kept true Needles.intro Needles.intro_with_size t mid intro_old first
move_size-tally false t t2 e =
    bind_elim (must_replace t Needles.intro Needles.intro_with_size) _ t2 e λ mid first second.
      let more =
        must_replace-tally new_side Needles.intro Needles.intro_with_size t mid 0 1 true intro-Shift
          first in
      let fewer =
        must_replace-tally new_side Needles.offset_and_size Needles.offset_alone mid t2 1 0 true
          offset-Shift second in
      omega arith

run-tally :
    (apply : Bytes → Option Bytes) (script : Script) (b : Bool) (t t2 : Bytes) (finished : Bool)
    → run apply script t ≡ wrote t2 finished
    → tally (side_of b) true t2 ≡ tally (side_of b) true t
unfolding run fix_env_size_spl show_and_fix_envsize fix_envsize2 fix_spl_env_nowhere
    fix_spl_env_nowhere3 fix_spl_env_nowhere4
run-tally apply env_size_spl b t t2 finished e =
    kept b Needles.size_inside Needles.size_first t t2 (size-Shift b)
      (finish_inv apply _ _ t2 finished e)
run-tally apply show_and_fix b t t2 finished e =
    kept b Needles.size_inside Needles.size_first t t2 (size-Shift b)
      (finish_inv apply _ _ t2 finished e)
run-tally apply envsize2 b t t2 finished e =
    move_size-tally b t t2 (finish_inv apply _ _ t2 finished e)
run-tally apply spl_env_nowhere b t t2 finished e =
    kept b Needles.usbeth_block Needles.spl_block t t2 (block-Shift b)
      (finish_inv _ _ _ t2 finished e)
run-tally apply spl_env_nowhere3 b t t2 finished e =
    kept b Needles.usbeth_guard Needles.spl_guard t t2 (guard-Shift b)
      (finish_inv apply _ _ t2 finished e)
run-tally apply spl_env_nowhere4 b t t2 finished e =
    kept b Needles.usbeth_hunk Needles.spl_hunk t t2 (hunk-Shift b)
      (finish_inv apply _ _ t2 finished e)

size-Even : (b : Bool) → Even (side_of b) Needles.size_inside Needles.size_first
unfolding hunk_tallies ended
size-Even true true rest = (refl, refl)
size-Even true false rest = (refl, refl)
size-Even false true rest = (refl, refl)
size-Even false false rest = (refl, refl)

block-Even : (b : Bool) → Even (side_of b) Needles.usbeth_block Needles.spl_block
unfolding hunk_tallies ended
block-Even true true rest = (refl, refl)
block-Even true false rest = (refl, refl)
block-Even false true rest = (refl, refl)
block-Even false false rest = (refl, refl)

guard-Even : (b : Bool) → Even (side_of b) Needles.usbeth_guard Needles.spl_guard
unfolding hunk_tallies ended
guard-Even true true rest = (refl, refl)
guard-Even true false rest = (refl, refl)
guard-Even false true rest = (refl, refl)
guard-Even false false rest = (refl, refl)

hunk-Even : (b : Bool) → Even (side_of b) Needles.usbeth_hunk Needles.spl_hunk
unfolding hunk_tallies ended
hunk-Even true true rest = (refl, refl)
hunk-Even true false rest = (refl, refl)
hunk-Even false true rest = (refl, refl)
hunk-Even false false rest = (refl, refl)

-- the counts for a whole patch
abbrev pub hunk_sizes : (ℕ → Bool) → Bytes → List ℕ
hunk_sizes side t = hunk_tallies side true t (0 ∷ [])

kept_hunks :
    (b : Bool) (old new t r : Bytes)
    → Even (side_of b) old new
    → must_replace t old new ≡ some r
    → hunk_sizes (side_of b) r ≡ hunk_sizes (side_of b) t
kept_hunks b old new t r even e = must_replace-hunks (side_of b) old new t r true (0 ∷ []) even e

run-hunks :
    (apply : Bytes → Option Bytes) (script : Script) (b : Bool) (t t2 : Bytes) (finished : Bool)
    → run apply script t ≡ wrote t2 finished
    → (script ≡ envsize2) ⊎ (hunk_sizes (side_of b) t2 ≡ hunk_sizes (side_of b) t)
unfolding run fix_env_size_spl show_and_fix_envsize fix_spl_env_nowhere fix_spl_env_nowhere3
    fix_spl_env_nowhere4
run-hunks apply env_size_spl b t t2 finished e = inr (
    kept_hunks b Needles.size_inside Needles.size_first t t2 (size-Even b)
      (finish_inv apply _ _ t2 finished e))
run-hunks apply show_and_fix b t t2 finished e = inr (
    kept_hunks b Needles.size_inside Needles.size_first t t2 (size-Even b)
      (finish_inv apply _ _ t2 finished e))
run-hunks apply envsize2 b t t2 finished e = inl refl
run-hunks apply spl_env_nowhere b t t2 finished e = inr (
    kept_hunks b Needles.usbeth_block Needles.spl_block t t2 (block-Even b)
      (finish_inv _ _ _ t2 finished e))
run-hunks apply spl_env_nowhere3 b t t2 finished e = inr (
    kept_hunks b Needles.usbeth_guard Needles.spl_guard t t2 (guard-Even b)
      (finish_inv apply _ _ t2 finished e))
run-hunks apply spl_env_nowhere4 b t t2 finished e = inr (
    kept_hunks b Needles.usbeth_hunk Needles.spl_hunk t t2 (hunk-Even b)
      (finish_inv apply _ _ t2 finished e))

-- Whatever the patch 0006 was, each of fix-env-size-spl.py, show-and-fix-envsize.py, fix-envsize2.py, fix-spl-env-nowhere.py,
-- fix-spl-env-nowhere3.py and fix-spl-env-nowhere4.py, where it writes the patch, leaves the number of lines of the old side and
-- that of the new side as they were: in each of the parts between one line that begins with `@` and the next, and for
-- fix-envsize2.py, which takes a line out at one place and puts one in at another, in the whole patch. What the hunk lines
-- declare is not part of it.
pub run-sizes :
    (apply : Bytes → Option Bytes) (script : Script) (t t2 : Bytes) (finished : Bool)
    → run apply script t ≡ wrote t2 finished
    → (tally old_side true t2 ≡ tally old_side true t)
      × (tally new_side true t2 ≡ tally new_side true t)
      × ((script ≡ envsize2) ⊎ (hunk_sizes old_side t2 ≡ hunk_sizes old_side t))
      × ((script ≡ envsize2) ⊎ (hunk_sizes new_side t2 ≡ hunk_sizes new_side t))
run-sizes apply script t t2 finished e = (
  run-tally apply script true t t2 finished e,
  run-tally apply script false t t2 finished e,
  run-hunks apply script true t t2 finished e,
  run-hunks apply script false t t2 finished e,
)

-- the hunk's first line, before and after
abbrev pub declares_24 : Bytes
declares_24 = codes "@@ -47,15 +47,24 @@\n"

abbrev pub declares_25 : Bytes
declares_25 = codes "@@ -47,15 +47,25 @@\n"

-- the hunk's other lines
abbrev pub usbeth_lines : Bytes
usbeth_lines = drop 20 Needles.usbeth_hunk

abbrev pub spl_lines : Bytes
spl_lines = drop 20 Needles.spl_hunk

spl_lines_even : (b : Bool) → tally (side_of b) true spl_lines ≡ tally (side_of b) true usbeth_lines
unfolding tally
spl_lines_even true = refl
spl_lines_even false = refl

-- If fix-spl-env-nowhere4.py writes the patch, it has raised the size that the hunk declares for its new
-- side from 24 to 25, and the lines that it has put into the hunk are as many on each side as those it took out.
pub nowhere4_declares :
    (apply : Bytes → Option Bytes) (t t2 : Bytes) (finished : Bool)
    → fix_spl_env_nowhere4 apply t ≡ wrote t2 finished
    → ((pre : Bytes) × (post : Bytes) × (t ≡ pre ++ (declares_24 ++ usbeth_lines) ++ post)
        × (t2 ≡ pre ++ (declares_25 ++ spl_lines) ++ post))
      × (tally old_side true spl_lines ≡ tally old_side true usbeth_lines)
      × (tally new_side true spl_lines ≡ tally new_side true usbeth_lines)
unfolding fix_spl_env_nowhere4 must_replace
nowhere4_declares apply t t2 finished e =
    let edited =
      finish_inv apply _ (must_replace t Needles.usbeth_hunk Needles.spl_hunk) t2 finished e in
    (
      elim (replace_cases Needles.usbeth_hunk Needles.spl_hunk t) [
        | inr (absent, never) ↦ absurd (cc (rw (absent, must_replace) at edited))
        | inl (pre, post, split, found, replaced, first) ↦
            (pre, post, split, sym (some_inj (rw (found, must_replace) at edited)) ∙ replaced)
      ],
      spl_lines_even true,
      spl_lines_even false,
    )
