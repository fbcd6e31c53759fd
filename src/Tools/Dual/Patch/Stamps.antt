-- ===== src/Tools/Dual/Patch/Stamps.antt =====
-- The time stamps of a diff.
use radsat_linux.Base.{
  ◌≡◌, refl, ap, ◌∙◌, Bool, true, false, not, ◌&&◌, List, [], ◌∷◌, ◌++◌, Bytes, codes, ◌==◌, arith,
  map, append_assoc, All,
}
use radsat_linux.Tools.Text.{starts_with}
use radsat_linux.Tools.Diff.{concat}
use radsat_linux.Tools.Diff.NewFile.{is_line, IsLine, no_breaks, splitlines-concat, IsLine-append}
use radsat_linux.Tools.Dual.Patch.{before_tab, is_title, strip_line, strip_stamps}

-- a line of a diff: `--- ` or `+++ `, a path and a stamp behind a tab; the same without a stamp; or another line
pub data DiffLine : Type 0 where
  stamped : Bool → Bytes → Bytes → DiffLine
  bare : Bool → Bytes → DiffLine
  other : Bytes → DiffLine

abbrev pub title : Bool → Bytes
title true = codes "--- "
title false = codes "+++ "

abbrev pub print : DiffLine → Bytes
print (stamped old path stamp) = title old ++ (path ++ b'\t' ∷ (stamp ++ codes "\n"))
print (bare old path) = title old ++ (path ++ codes "\n")
print (other line) = line

-- the line without its stamp; a bare title gets an empty line behind it
abbrev pub stripped : DiffLine → Bytes
stripped (stamped old path stamp) = title old ++ (path ++ codes "\n")
stripped (bare old path) = title old ++ (path ++ codes "\n\n")
stripped (other line) = line

unfoldable pub no_tabs : Bytes → Bool
no_tabs [] = true
no_tabs (c ∷ s) = not (c == b'\t') && no_tabs s

-- paths and stamps have no line breaks, paths no tabs, and the other lines are lines that begin differently
abbrev pub IsPrinted : DiffLine → Type 0
IsPrinted (stamped old path stamp) =
    (no_breaks path ≡ true) × (no_tabs path ≡ true) × (no_breaks stamp ≡ true)
IsPrinted (bare old path) = (no_breaks path ≡ true) × (no_tabs path ≡ true)
IsPrinted (other line) = (is_line line ≡ true) × (is_title line ≡ false)

before_tab-stamped :
    (path rest : Bytes) → no_tabs path ≡ true → before_tab (path ++ b'\t' ∷ rest) ≡ path
unfolding before_tab no_tabs
before_tab-stamped [] rest h = refl
before_tab-stamped (c ∷ path) rest h =
    let ih = before_tab-stamped path rest (ground arith) in ground (arith, ih)

before_tab-bare :
    (path : Bytes) → no_tabs path ≡ true → before_tab (path ++ codes "\n") ≡ path ++ codes "\n"
unfolding before_tab no_tabs
before_tab-bare [] h = refl
before_tab-bare (c ∷ path) h = let ih = before_tab-bare path (ground arith) in ground (arith, ih)

strip_line-print : (d : DiffLine) → IsPrinted d → strip_line (print d) ≡ stripped d
unfolding strip_line starts_with before_tab
strip_line-print (stamped true path stamp) (breaks, tabs, stamp_breaks) =
    rw (before_tab-stamped path (stamp ++ codes "\n") tabs) refl
strip_line-print (stamped false path stamp) (breaks, tabs, stamp_breaks) =
    rw (before_tab-stamped path (stamp ++ codes "\n") tabs) refl
strip_line-print (bare true path) (breaks, tabs) =
    rw (before_tab-bare path tabs)
      (ap (λ s. title true ++ s) (append_assoc path (codes "\n") (codes "\n")))
strip_line-print (bare false path) (breaks, tabs) =
    rw (before_tab-bare path tabs)
      (ap (λ s. title false ++ s) (append_assoc path (codes "\n") (codes "\n")))
strip_line-print (other line) (whole, plain) = rw plain refl

titled-IsLine :
    (old : Bool) (path rest : Bytes)
    → no_breaks path ≡ true
    → is_line rest ≡ true
    → is_line (title old ++ (path ++ rest)) ≡ true
unfolding no_breaks
titled-IsLine true path rest h r =
    IsLine-append (title true) (path ++ rest) refl (IsLine-append path rest h r)
titled-IsLine false path rest h r =
    IsLine-append (title false) (path ++ rest) refl (IsLine-append path rest h r)

print-IsLine : (d : DiffLine) → IsPrinted d → is_line (print d) ≡ true
unfolding is_line no_breaks
print-IsLine (stamped old path stamp) (breaks, tabs, stamp_breaks) =
    titled-IsLine old path _ breaks (
      IsLine-append (codes "\t") (stamp ++ codes "\n") refl
        (IsLine-append stamp (codes "\n") stamp_breaks refl))
print-IsLine (bare old path) (breaks, tabs) = titled-IsLine old path _ breaks refl
print-IsLine (other line) (whole, plain) = whole

All-print : (ds : List DiffLine) → All IsPrinted ds → All IsLine (map print ds)
All-print [] h = tt
All-print (d ∷ ds) (h, t) = (print-IsLine d h, All-print ds t)

map-strip_line :
    (ds : List DiffLine) → All IsPrinted ds → map strip_line (map print ds) ≡ map stripped ds
map-strip_line [] h = refl
map-strip_line (d ∷ ds) (h, t) = rw (strip_line-print d h, map-strip_line ds t) refl

-- On a diff whose paths and stamps have no line breaks and whose paths have no tabs, the loop of write_patch takes the
-- stamp off every line that begins with `--- ` or `+++ ` and has one, leaves every line that begins differently as it
-- is, and puts an empty line behind each line that begins so and has no stamp.
pub strip_stamps-print :
    (ds : List DiffLine)
    → All IsPrinted ds
    → strip_stamps (concat (map print ds)) ≡ concat (map stripped ds)
unfolding strip_stamps
strip_stamps-print ds h =
    ap (λ lines. concat (map strip_line lines)) (splitlines-concat (map print ds) (All-print ds h))
    ∙ ap concat (map-strip_line ds h)
