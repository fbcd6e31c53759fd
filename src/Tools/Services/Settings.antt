-- ===== src/Tools/Services/Settings.antt =====
-- The settings of the environment region in tests/graphql.rs, which two scripts put in.
use radsat_linux.Base.{
  ℕ, ◌≡◌, refl, ap, ◌∙◌, true, false, [], ◌∷◌, ◌++◌, Bytes, codes, arith, length,
}
use radsat_linux.Tools.Text.{starts_with, occurs_in}
use radsat_linux.Tools.Text.Replace.{starts_with-append}
use radsat_linux.Tools.Text.Clear.{Clear, starts_with-Clear, first_occurrence}
use radsat_linux.Tools.Tree.{replace_all, unless}
use radsat_linux.Tools.Services.Needles
use radsat_linux.Tools.Services.{add_settings}
use radsat_linux.Tools.Services.EnvRegion.{fix_tests}

replace_all-skip :
    (old new s t : Bytes) → replace_all old new (length s) (s ++ t) ≡ replace_all old new 0 t
unfolding replace_all
replace_all-skip old new [] t = refl
replace_all-skip old new (c ∷ s) t = replace_all-skip old new s t

replace_all-Clear :
    (a : ℕ) (old new pre post : Bytes)
    → Clear (a ∷ old) pre
    → replace_all (a ∷ old) new 0 (pre ++ ((a ∷ old) ++ post))
      ≡ pre ++ (new ++ replace_all (a ∷ old) new 0 post)
unfolding replace_all Clear
replace_all-Clear a old new [] post h =
    rw (starts_with-append (a ∷ old) post, replace_all)
      (ap (λ s. new ++ s)
        (ap (λ k. replace_all (a ∷ old) new k (old ++ post)) (omega arith)
          ∙ replace_all-skip (a ∷ old) new old post))
replace_all-Clear a old new (c ∷ pre) post (differs, clear) =
    rw (starts_with-Clear (a ∷ old) pre post c, differs, replace_all)
      (ap (λ s. c ∷ s) (replace_all-Clear a old new pre post clear))

abbrev pub settings : Bytes
settings = codes "env_offset = 514048\nenv_size = 10240\n"

-- an edit by `add_settings`: the settings come behind the first line on the capacity
added :
    (pre post : Bytes)
    → Clear Needles.capacity_line pre
    → (rest : Bytes) × (replace_all Needles.capacity_line Needles.capacity_lines 0
          (pre ++ (Needles.capacity_line ++ post))
        ≡ pre ++ (Needles.capacity_line ++ (settings ++ rest)))
      × (rest ≡ replace_all Needles.capacity_line Needles.capacity_lines 0 post)
added pre post clear = (
  _,
  replace_all-Clear b'i' (codes "mage_capacity_bytes = 524288\n") Needles.capacity_lines pre post
      clear,
  refl,
)

-- the settings are passed by
past_settings :
    (post : Bytes)
    → replace_all Needles.capacity_line Needles.capacity_lines 0 (settings ++ post)
      ≡ settings ++ replace_all Needles.capacity_line Needles.capacity_lines 0 post
unfolding replace_all starts_with
past_settings post = refl

fix_tests_bare :
    (t : Bytes)
    → occurs_in (codes "env_offset") t ≡ false
    → fix_tests t ≡ replace_all Needles.capacity_line Needles.capacity_lines 0 t
unfolding fix_tests unless
fix_tests_bare t h = rw (h, unless) refl

-- Take a configuration that has a line on the capacity of 512 KiB and does not have the settings of the environment region.
-- After fix_tests of apply-mram-env-region.py and the first edit of fix-sync-and-tests.py, it has the settings twice, one
-- directly behind the other.
pub add_settings-fix_tests :
    (t : Bytes)
    → occurs_in Needles.capacity_line t ≡ true
    → occurs_in (codes "env_offset") t ≡ false
    → (pre : Bytes) × (post : Bytes) × (add_settings (fix_tests t)
        ≡ pre ++ (Needles.capacity_line ++ (settings ++ (settings ++ post))))
unfolding add_settings
add_settings-fix_tests t there bare =
    let edit = replace_all Needles.capacity_line Needles.capacity_lines 0 in
    let (pre, post, split, clear) =
      first_occurrence b'i' (codes "mage_capacity_bytes = 524288\n") t there in
    let (rest, first, _) = added pre post clear in
    let (rest2, second, again) = added pre (settings ++ rest) clear in
    (
      pre,
      edit rest,
      ap add_settings (fix_tests_bare t bare ∙ ap edit split ∙ first)
          ∙ second
          ∙ ap (λ u. pre ++ (Needles.capacity_line ++ (settings ++ u)))
              (again ∙ past_settings rest),
    )
