-- ===== src/Tools/Text.antt =====
-- What the scripts of tools/ use of Python's `str`, and `must_replace`, which they share. A text is the list of
-- its code points.
pub mod Replace
pub mod Occurs
pub mod Insert
pub mod Positions
pub mod Once
pub mod Clear
use radsat_linux.Base.{
  ℕ, zero, suc, ◌+◌, Bool, true, false, not, ◌&&◌, ◌||◌, List, [], ◌∷◌, ◌++◌, Option, none, some,
  Bytes, ◌==◌, leb, if◌then◌else◌, length, drop,
}

-- `text.startswith(old)`
unfoldable pub starts_with : Bytes → Bytes → Bool
starts_with [] text = true
starts_with (a ∷ old) [] = false
starts_with (a ∷ old) (b ∷ text) = a == b && starts_with old text

-- `old in text`
unfoldable pub occurs_in : Bytes → Bytes → Bool
occurs_in old [] = starts_with old []
occurs_in old (c ∷ text) = starts_with old (c ∷ text) || occurs_in old text

-- `text.replace(old, new, 1)`
unfoldable pub replace_first : Bytes → Bytes → Bytes → Bytes
replace_first old new [] = if starts_with old [] then new else []
replace_first old new (c ∷ text) =
    let rest = replace_first old new text in
    if starts_with old (c ∷ text) then new ++ drop (length old) (c ∷ text) else c ∷ rest

-- `must_replace(text, old, new, label)`; none where it leaves by `SystemExit`
unfoldable pub must_replace : Bytes → Bytes → Bytes → Option Bytes
must_replace text old new =
    if not (occurs_in old text) then none else some (replace_first old new text)

-- the characters that `splitlines` ends a line at
abbrev pub is_line_break : ℕ → Bool
is_line_break c =
    (leb 10 c && leb c 13) || (leb 28 c && leb c 30) || c == 0x85 || c == 0x2028 || c == 0x2029

-- a character in front of the first line
abbrev pub push : ℕ → List Bytes → List Bytes
push c [] = (c ∷ []) ∷ []
push c (line ∷ lines) = (c ∷ line) ∷ lines

-- `text.splitlines(True)`; a carriage return takes a newline behind it along
unfoldable pub splitlines : Bytes → List Bytes
splitlines [] = []
splitlines (c ∷ text) = elim (is_line_break c && not (c == 13 && starts_with (b'\n' ∷ []) text)) [
  | true ↦ (c ∷ []) ∷ splitlines text
  | false ↦ push c (splitlines text)
]
