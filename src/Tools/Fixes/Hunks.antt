-- ===== src/Tools/Fixes/Hunks.antt =====
-- The scripts that edit the hunk of include/configs/beaglebone-black.h inside 0006-bbb-env-on-spi-mram.patch as text:
-- tools/fix-env-size-spl.py, show-and-fix-envsize.py, fix-envsize2.py, fix-spl-env-nowhere.py, fix-spl-env-nowhere3.py and
-- fix-spl-env-nowhere4.py. `apply` gives the header that the series makes with a text of that patch, none where
-- tar or patch fails.
pub mod Needles
pub mod Tally
pub mod Sizes
use radsat_linux.Base.{
  ℕ, ◌-◌, Bool, true, false, not, ◌&&◌, Option, none, some, Bytes, codes, ltb, if◌then◌else◌,
  length, drop,
}
use radsat_linux.Base.Maybe.{◌>>=◌}
use radsat_linux.Tools.Text.{occurs_in, must_replace}
use radsat_linux.Tools.Whitelist.Main.{before_first}
use radsat_linux.Tools.Fixes.MramBits.{find}
use radsat_linux.Tools.Fixes.Hunks.Needles

-- `SystemExit` in front of the write, or the text written and whether the run then got to its end
pub data Outcome : Type 0 where
  stopped : Outcome
  wrote : Bytes → Bool → Outcome

abbrev pub less : Option ℕ → Option ℕ → Bool
less none j = false
less (some i) none = false
less (some i) (some j) = ltb i j

-- `hdr.index(a) < hdr.index(b)`; a text that is missing ends the run as well
unfoldable pub before : Bytes → Bytes → Bytes → Bool
before a b hdr = less (find a hdr) (find b hdr)

-- `s[-n:]`
abbrev pub last : ℕ → Bytes → Bytes
last n s = drop (length s - n) s

abbrev pub asserted : (Bytes → Bool) → Option Bytes → Bool
asserted check none = false
asserted check (some hdr) = check hdr

-- The write, and the run of the series behind it, of whose header something is asserted.
unfoldable pub finish : (Bytes → Option Bytes) → (Bytes → Bool) → Option Bytes → Outcome
finish apply check none = stopped
finish apply check (some t) = wrote t (asserted check (apply t))

unfoldable pub fix_env_size_spl : (Bytes → Option Bytes) → Bytes → Outcome
fix_env_size_spl apply t =
    finish apply (before (codes "CONFIG_ENV_SIZE") (codes "CONFIG_SPL_BUILD"))
      (must_replace t Needles.size_inside Needles.size_first)

-- the regular expression is the text of fix-env-size-spl.py, character by character
unfoldable pub show_and_fix_envsize : (Bytes → Option Bytes) → Bytes → Outcome
show_and_fix_envsize apply t =
    finish apply (before (codes "CONFIG_ENV_SIZE") (codes "#ifdef CONFIG_SPL_BUILD"))
      (must_replace t Needles.size_inside Needles.size_first)

unfoldable pub move_size : Bytes → Option Bytes
move_size t = do
  t2 ← must_replace t Needles.intro Needles.intro_with_size
  must_replace t2 Needles.offset_and_size Needles.offset_alone

unfoldable pub fix_envsize2 : (Bytes → Option Bytes) → Bytes → Outcome
fix_envsize2 apply t =
    finish apply
      (λ hdr.
        before (codes "#define CONFIG_ENV_SIZE") (codes "#ifdef CONFIG_SPL_BUILD") hdr
        && occurs_in (codes "CONFIG_ENV_IS_IN_MRAM") hdr)
      (move_size t)

-- this script does not run the series
unfoldable pub fix_spl_env_nowhere : Bytes → Outcome
fix_spl_env_nowhere t =
    finish (λ t2. some t2) (λ t2. true) (must_replace t Needles.usbeth_block Needles.spl_block)

unfoldable pub fix_spl_env_nowhere3 : (Bytes → Option Bytes) → Bytes → Outcome
fix_spl_env_nowhere3 apply t =
    finish apply
      (λ hdr.
        occurs_in (codes "#ifdef CONFIG_SPL_BUILD") hdr
        && not (
            occurs_in (codes "CONFIG_SPL_USBETH_SUPPORT")
              (last 200 (before_first (codes "CONFIG_ENV_IS_IN_MRAM") hdr))))
      (must_replace t Needles.usbeth_guard Needles.spl_guard)

unfoldable pub fix_spl_env_nowhere4 : (Bytes → Option Bytes) → Bytes → Outcome
fix_spl_env_nowhere4 apply t =
    finish apply
      (λ hdr.
        occurs_in (codes "#ifdef CONFIG_SPL_BUILD") hdr
        && not (occurs_in (codes "CONFIG_SPL_USBETH_SUPPORT") hdr))
      (must_replace t Needles.usbeth_hunk Needles.spl_hunk)
