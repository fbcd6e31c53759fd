-- ===== src/Tools/Plan/Second/Variant.antt =====
-- The enum BackendError of mram-service: tools/apply-mram-fram-plan2.py adds a variant that is there, and
-- tools/fix-backend-enum.py takes it out.
use radsat_linux.Base.{
  ◌≡◌, refl, sym, ap, ◌∙◌, true, false, ◌||◌, ◌++◌, some, Bytes, codes, append_assoc,
}
use radsat_linux.Tools.Text.{starts_with, occurs_in}
use radsat_linux.Tools.Text.Clear.{
  Clear, Clear-occurs_in, Clear-longer, must_replace-Clear, after_first-Clear,
}
use radsat_linux.Tools.Tree.{after_first}
use radsat_linux.Tools.Whitelist.Main.{before_first}
use radsat_linux.Tools.Services.{fix_backend_enum}
use radsat_linux.Tools.Services.Needles as Enum
use radsat_linux.Tools.Plan.Second.Needles
use radsat_linux.Tools.Plan.Second.Window.{window}
use radsat_linux.Tools.Plan.Second.{patch_mram_backend_window, enum_part, add_invalid}

-- the lines of the enum behind its head
abbrev variants : Bytes
variants =
    codes "    #[error(\"I/O error: {0}\")]\n    Io(#[from] std::io::Error),\n"
    ++ codes "    #[error(\"invalid backend config: {0}\")]\n    InvalidConfig(String),\n"

-- the same behind the variant that is put in
abbrev doubled : Bytes
doubled = codes "    #[error(\"{0}\")]\n    InvalidConfig(String),\n" ++ variants

-- the part that the script looks at ends at the first brace, that of a message
part_cut :
    (rest : Bytes)
    → before_first
        (codes "}")
        (before_first (codes "enum BackendError") (codes " {\n" ++ (variants ++ rest)))
      ≡ codes " {\n    #[error(\"I/O error: {0"
unfolding before_first starts_with
part_cut rest = refl

behind_name :
    (pre rest : Bytes)
    → Clear (codes "enum BackendError") (pre ++ codes "pub ")
    → after_first (codes "enum BackendError") (pre ++ (Needles.enum_head ++ (variants ++ rest)))
      ≡ some (codes " {\n" ++ (variants ++ rest))
behind_name pre rest clear =
    let behind = codes " {\n" ++ (variants ++ rest) in
    ap (after_first (codes "enum BackendError"))
      (sym (append_assoc pre (codes "pub ") (codes "enum BackendError" ++ behind)))
    ∙ after_first-Clear b'e' (codes "num BackendError") (pre ++ codes "pub ") behind clear

enum_part_cut :
    (pre rest : Bytes)
    → Clear (codes "enum BackendError") (pre ++ codes "pub ")
    → enum_part (pre ++ (Needles.enum_head ++ (variants ++ rest)))
      ≡ some (codes " {\n    #[error(\"I/O error: {0")
unfolding enum_part
enum_part_cut pre rest clear =
    rw (behind_name pre rest clear, enum_part) (ap (λ s. some s) (part_cut rest))

-- the variant is put in, although the enum has it
add_invalid-twice :
    (pre rest : Bytes)
    → Clear Needles.enum_head pre
    → Clear (codes "enum BackendError") (pre ++ codes "pub ")
    → let t = pre ++ (Needles.enum_head ++ (variants ++ rest)) in
      add_invalid t (enum_part t) ≡ (pre ++ (Enum.two_configs ++ rest), true)
unfolding occurs_in starts_with
add_invalid-twice pre rest head clear =
    rw
      (
        enum_part_cut pre rest clear,
        must_replace-Clear b'p' (codes "ub enum BackendError {\n") Needles.enum_invalid pre
            (variants ++ rest) head,
      )
      refl

-- Let src/backend.rs of mram-service define BackendError with the variants Io and InvalidConfig, have no window, and not speak
-- of the enum in front of its definition. apply-mram-fram-plan2.py appends the window and puts a second InvalidConfig into
-- the enum. fix-backend-enum.py takes exactly this variant out again: the file is then as it was, with the window behind it.
pub backend_variant-repaired :
    (pre post : Bytes)
    → let text = pre ++ (Enum.one_config ++ post) in
      (occurs_in (codes "struct PayloadWindow") text
          || occurs_in (codes "PayloadWindowBackend") text
        ≡ false)
      → occurs_in Needles.enum_head (pre ++ codes "pub enum BackendError {") ≡ false
      → occurs_in (codes "enum BackendError") (pre ++ codes "pub " ++ codes "enum BackendErro")
        ≡ false
      → (patch_mram_backend_window (pre ++ (Enum.one_config ++ post))
          ≡ (pre ++ (Enum.two_configs ++ (post ++ window)), true))
        × (fix_backend_enum (pre ++ (Enum.two_configs ++ (post ++ window)))
            ≡ some ((pre ++ (Enum.one_config ++ post)) ++ window))
unfolding patch_mram_backend_window fix_backend_enum
backend_variant-repaired pre post fresh head name =
    let clear = Clear-occurs_in (codes "pub enum BackendError {") 10 pre head in
    let named = Clear-occurs_in (codes "enum BackendErro") b'r' (pre ++ codes "pub ") name in
    let grown : (pre ++ (Enum.one_config ++ post)) ++ window
        ≡ pre ++ (Enum.one_config ++ (post ++ window)) =
      append_assoc pre (Enum.one_config ++ post) window
      ∙ ap (λ s. pre ++ s) (append_assoc Enum.one_config post window) in
    (
      rw fresh (
          ap (λ t. add_invalid t (enum_part t)) grown
          ∙ add_invalid-twice pre (post ++ window) clear named),
      must_replace-Clear b'p' (codes "ub enum BackendError {\n" ++ doubled) Enum.one_config pre
            (post ++ window) (Clear-longer Needles.enum_head doubled pre clear)
          ∙ ap (λ s. some s) (sym grown),
    )
