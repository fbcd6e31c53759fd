-- ===== src/Tools/Whitelist/Append/Again.antt =====
-- A second run leaves the patch file alone.
use radsat_linux.Base.{
  ◌≡◌, ◌⊎◌, inl, inr, refl, ap, Bool, true, List, [], ◌∷◌, ◌++◌, Option, none, some, Bytes, codes,
  Bool-cases,
}
use radsat_linux.Tools.Text.{starts_with, occurs_in, splitlines}
use radsat_linux.Tools.Tree.Marks.{occurs_in-left, occurs_in-right}
use radsat_linux.Tools.Whitelist.{new_names}
use radsat_linux.Tools.Whitelist.Main.{marker, rstrip, hunk}
use radsat_linux.Tools.Whitelist.Append.{added, append_hunk, append_names, extend, main}

module _ (apply apply_all : Bytes → Option Bytes) (diff : Bytes → Bytes → Bytes) where
  -- the file as it was, or with a hunk for the whitelist at its end
  abbrev Extended : Bytes → Bytes × Bool → Type 0
  Extended text result =
      (result.0 ≡ text)
      ⊎ ((body : Bytes) × (result.0 ≡ rstrip text ++ (codes "\n" ++ (marker ++ body))))

  append_hunk-Extended :
      (text : Bytes) (lines : List Bytes)
      → Extended text (append_hunk apply apply_all diff text (hunk lines))
  unfolding append_hunk hunk
  append_hunk-Extended text [] = inl refl
  append_hunk-Extended text (a ∷ []) = inl refl
  append_hunk-Extended text (a ∷ b ∷ lines) = inr (_, refl)

  append_names-Extended :
      (text cur add : Bytes) → Extended text (append_names apply apply_all diff text cur add)
  unfolding append_names
  append_names-Extended text cur [] = inl refl
  append_names-Extended text cur (c ∷ add) =
      append_hunk-Extended text (splitlines (diff cur (rstrip cur ++ (codes "\n" ++ c ∷ add))))

  extend-Extended :
      (text : Bytes) (whitelist : Option Bytes)
      → Extended text (extend apply apply_all diff text whitelist)
  unfolding extend
  extend-Extended text none = inl refl
  extend-Extended text (some cur) = append_names-Extended text cur (added new_names cur)

  main-Extended : (text : Bytes) → Extended text (main apply apply_all diff text)
  unfolding main
  main-Extended text = elim (Bool-cases (occurs_in (codes "config_whitelist.txt") text)) [
    | inl there ↦ inl (rw (there, main) refl)
    | inr missing ↦ rw (missing, main) (extend-Extended text (apply text))
  ]

  marker_named : occurs_in (codes "config_whitelist.txt") marker ≡ true
  unfolding occurs_in starts_with
  marker_named = refl

  main_there :
      (text : Bytes)
      → occurs_in (codes "config_whitelist.txt") text ≡ true
      → (main apply apply_all diff text).0 ≡ text
  unfolding main
  main_there text there = rw (there, main) refl

  -- Whatever tar, patch and diff do: a second run leaves the patch file as the first run left it, so that the hunk is never
  -- there twice.
  pub main-again :
      (text : Bytes)
      → (main apply apply_all diff (main apply apply_all diff text).0).0
        ≡ (main apply apply_all diff text).0
  main-again text = elim (main-Extended text) [
    | inl same ↦ ap (λ t. (main apply apply_all diff t).0) same
    | inr (body, e) ↦ main_there (main apply apply_all diff text).0 (
        rw e (
          occurs_in-right (codes "config_whitelist.txt") (rstrip text)
            (codes "\n" ++ (marker ++ body))
            (occurs_in-right (codes "config_whitelist.txt") (codes "\n") (marker ++ body)
              (occurs_in-left (codes "config_whitelist.txt") marker body marker_named))))
  ]
