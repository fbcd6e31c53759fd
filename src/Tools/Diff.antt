-- ===== src/Tools/Diff.antt =====
-- `newfile_diff` of tools/rewrite-uboot-0006-0007.py: the part of a patch that makes a new file.
pub mod NewFile
pub mod Patch
use radsat_linux.Base.{
  ℕ, zero, suc, Bool, true, false, List, [], ◌∷◌, ◌++◌, Bytes, codes, if◌then◌else◌, ◌==◌, length,
  map,
}
use radsat_linux.Fram.Record.{decimal_digits}
use radsat_linux.Tools.Text.{splitlines}

-- `str(n)`: `n` has fewer than `n + 2` digits
unfoldable pub str : ℕ → Bytes
str n = decimal_digits (suc n) n []

-- `"".join(lines)`
unfoldable pub concat : List Bytes → Bytes
concat [] = []
concat (line ∷ lines) = line ++ concat lines

-- `line.endswith("\n")`
unfoldable pub ends_line : Bytes → Bool
ends_line [] = false
ends_line (c ∷ []) = c == b'\n'
ends_line (c ∷ d ∷ s) = ends_line (d ∷ s)

abbrev pub end_line : Bytes → Bytes
end_line line = if ends_line line then line else line ++ codes "\n"

-- `if body and not body[-1].endswith("\n"): body[-1] += "\n"`
unfoldable pub end_last : List Bytes → List Bytes
end_last [] = []
end_last (line ∷ []) = end_line line ∷ []
end_last (line ∷ next ∷ lines) = line ∷ end_last (next ∷ lines)

unfoldable pub newfile_lines : Bytes → List Bytes → List Bytes
newfile_lines rel body =
    (codes "diff --git a/" ++ (rel ++ (codes " b/" ++ (rel ++ codes "\n"))))
    ∷ codes "new file mode 100644\n"
    ∷ codes "--- /dev/null\n"
    ∷ (codes "+++ b/" ++ (rel ++ codes "\n"))
    ∷ (codes "@@ -0,0 +1," ++ (str (length body) ++ codes " @@\n"))
    ∷ map (λ line. b'+' ∷ line) body

unfoldable pub newfile_diff : Bytes → Bytes → Bytes
newfile_diff rel content = concat (newfile_lines rel (end_last (splitlines content)))
