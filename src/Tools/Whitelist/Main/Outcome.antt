-- ===== src/Tools/Whitelist/Main/Outcome.antt =====
-- What a run leaves in the patch file.
use radsat_linux.Base.{
  ◌≡◌, ◌⊎◌, inl, inr, refl, Bool, true, false, List, [], ◌∷◌, ◌++◌, Option, none, some, Bytes,
  if◌then◌else◌,
}
use radsat_linux.Tools.Text.{splitlines}
use radsat_linux.Tools.Whitelist.{is_blank_line, merged, merged_text}
use radsat_linux.Tools.Whitelist.Main.{marker, strip_hunk, verified, hunk, finish, update, main}

module _ (apply apply_all : Bytes → Option Bytes) (diff : Bytes → Bytes → Bytes) where
  -- the file holds the stripped patch and no new hunk, or a hunk for the whitelist behind it, which was checked if the
  -- script went through
  abbrev pub Left : Bytes → Bytes × Bool → Type 0
  Left stripped result =
      ((result.0 ≡ stripped) × (result.1 ≡ false))
      ⊎ ((body : Bytes) × (result.0 ≡ stripped ++ (marker ++ body))
          × (result.1 ≡ verified (apply_all result.0)))

  finish-Left :
      (stripped : Bytes) (lines : List Bytes)
      → Left stripped (finish apply apply_all diff stripped (hunk lines))
  unfolding finish hunk
  finish-Left stripped [] = inl (refl, refl)
  finish-Left stripped (a ∷ []) = inl (refl, refl)
  finish-Left stripped (a ∷ b ∷ lines) = inr (_, refl, refl)

  finish_cases :
      (stripped : Bytes) (blank : Bool) (lines : List Bytes)
      → Left stripped (finish apply apply_all diff stripped (if blank then none else hunk lines))
  unfolding finish
  finish_cases stripped true lines = inl (refl, refl)
  finish_cases stripped false lines = finish-Left stripped lines

  update-Left :
      (stripped : Bytes) (whitelist : Option Bytes)
      → Left stripped (update apply apply_all diff stripped whitelist)
  unfolding update
  update-Left stripped none = inl (refl, refl)
  update-Left stripped (some whitelist) =
      finish_cases stripped (is_blank_line (diff whitelist (merged_text (merged whitelist))))
        (splitlines (diff whitelist (merged_text (merged whitelist))))

  -- Whatever tar, patch and diff do: the patch file ends as the old one without its whitelist hunk, and then the script
  -- fails, or as that with one whitelist hunk behind it, and then the script goes through exactly if the whole series
  -- applies and gives a sorted whitelist with all the new names.
  pub main-Left : (text : Bytes) → Left (strip_hunk text) (main apply apply_all diff text)
  unfolding main
  main-Left text = update-Left (strip_hunk text) (apply (strip_hunk text))
