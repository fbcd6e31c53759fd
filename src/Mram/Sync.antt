-- ===== src/Mram/Sync.antt =====
-- mram-service's src/bin/mram_env_sync.rs, as tools/apply-mram-env-region.py writes it: before the fram service
-- starts, copy the U-Boot environment from the chip to a file, if its checksum is right. What other code does
-- (opening and reading the chip, the file system of the host) is an argument. Messages on stderr are left out.
pub mod Copy
pub mod Arguments
use radsat_linux.Base.{
  ℕ, zero, suc, ◌+◌, ◌-◌, ◌*◌, ◌^◌, Bool, true, false, ◌&&◌, List, [], ◌∷◌, Option, none, some,
  Bytes, codes, bytes_eq, leb, ltb, ◌==◌, if◌then◌else◌,
}
use radsat_linux.Base.Result.{Result, ok, err, ◌>>=◌, fail_if}
use radsat_linux.Mram.Region.{uboot_env_size, uboot_env_offset, uboot_env_crc}
use radsat_linux.Mram.Window.{ByteStorage, BackendError}
use radsat_linux.Mram.Subsystem.{unwrap_or}

-- the variables that the arguments set
pub record Options : Type 0 where
  pub out : Bytes
  pub backend : Bytes
  pub device : Bytes
  pub image : Bytes
  pub speed : ℕ
  pub mode : ℕ
  pub offset : ℕ
  pub size : ℕ

abbrev pub defaults : ℕ → Options
defaults capacity_bytes = record {
  out = codes "/envar/uboot.env";
  backend = codes "spidev";
  device = codes "/dev/spidev1.0";
  image = [];
  speed = 10000000;
  mode = 0;
  offset = uboot_env_offset capacity_bytes;
  size = uboot_env_size;
}

-- `s.parse().ok()` at u32 and u8: an optional `+`, then digits, the value below the bound
unfoldable pub parse_digits : ℕ → ℕ → Bytes → Option ℕ
parse_digits bound acc [] = some acc
parse_digits bound acc (c ∷ s) =
    let value = acc * 10 + (c - b'0') in
    elim (leb b'0' c && leb c b'9' && ltb value bound) [
      | true ↦ parse_digits bound value s
      | false ↦ none
    ]

unfoldable pub parse : ℕ → Bytes → Option ℕ
parse bound [] = none
parse bound (c ∷ []) = parse_digits bound 0 (c ∷ [])
parse bound (c ∷ d ∷ s) =
    if c == b'+' then parse_digits bound 0 (d ∷ s) else parse_digits bound 0 (c ∷ d ∷ s)

-- `args.next().unwrap_or(old)`, and with `.and_then(|s| s.parse().ok())` before the default
abbrev pub parse_or : ℕ → Option Bytes → ℕ → ℕ
parse_or bound none old = old
parse_or bound (some s) old = unwrap_or (parse bound s) old

-- one turn of the loop: an argument and what follows it; an error is the exit code
unfoldable pub set_option : Bytes → Option Bytes → Options → Result ℕ Options
set_option arg next o =
    if bytes_eq arg (codes "--out")
    then ok (record o { out = unwrap_or next o.out })
    else if bytes_eq arg (codes "--backend")
    then ok (record o { backend = unwrap_or next o.backend })
    else if bytes_eq arg (codes "--device")
    then ok (record o { device = unwrap_or next o.device })
    else if bytes_eq arg (codes "--image")
    then ok (record o { image = unwrap_or next o.image })
    else if bytes_eq arg (codes "--speed")
    then ok (record o { speed = parse_or (2 ^ 32) next o.speed })
    else if bytes_eq arg (codes "--mode")
    then ok (record o { mode = parse_or (2 ^ 8) next o.mode })
    else if bytes_eq arg (codes "--offset")
    then ok (record o { offset = parse_or (2 ^ 32) next o.offset })
    else if bytes_eq arg (codes "--size")
    then ok (record o { size = parse_or (2 ^ 32) next o.size })
    else if bytes_eq arg (codes "-h")
    then err 0
    else if bytes_eq arg (codes "--help")
    then err 0
    else err 2

unfoldable pub parse_args : Options → List Bytes → Result ℕ Options
parse_args o [] = ok o
parse_args o (arg ∷ []) = set_option arg none o
parse_args o (arg ∷ value ∷ args_left) = elim (set_option arg (some value) o) [
  | err exit ↦ err exit
  | ok o2 ↦ parse_args o2 args_left
]

-- the host's files: `fs::create_dir_all` on the parent of a path, and creating, writing and syncing a file
pub record Files (F : Type 0) : Type 0 where
  pub create_parent : F → Bytes → F
  pub store : F → Bytes → Bytes → Bool × F

module _ {F : Type 0} (files : Files F) where
  -- the end of `main`, from the outcome of the read and from that of the checksum
  unfoldable pub write_out : Options → F → Bytes → ℕ × F
  write_out o f blob =
      let (stored, f2) = files.store (files.create_parent f o.out) o.out blob in
      (if stored then 0 else 1, f2)

  unfoldable pub copy_checked : Options → F → Bytes → Option (ℕ × Bool) → ℕ × F
  copy_checked o f blob none = (1, f)
  copy_checked o f blob (some (crc, false)) = (0, f)
  copy_checked o f blob (some (crc, true)) = write_out o f blob

  unfoldable pub copy_env : Options → F → Result BackendError Bytes → ℕ × F
  copy_env o f (err _) = (1, f)
  copy_env o f (ok blob) = copy_checked o f blob (uboot_env_crc blob)

module _ {S F : Type 0} (storage : ByteStorage S) (files : Files F) (capacity_bytes : ℕ)
    (file_image : Bytes → ℕ → Result BackendError S)
    (spidev : Option (Bytes → ℕ → ℕ → Result BackendError S)) where
  -- opening the chip; an error is the exit code
  unfoldable pub open_storage : Options → Result ℕ S
  open_storage o =
      if bytes_eq o.backend (codes "file")
      then elim o.image [
        | [] ↦ err 2
        | _ ∷ _ ↦ elim (file_image o.image capacity_bytes) [ ok s ↦ ok s | err _ ↦ err 1 ]
      ]
      else if bytes_eq o.backend (codes "spidev")
      then elim spidev [
        | none ↦ err 1
        | some spidev_new ↦ elim (spidev_new o.device o.speed o.mode) [
          | ok s ↦ ok s
          | err _ ↦ err 1
        ]
      ]
      else err 2

  unfoldable pub main : List Bytes → F → ℕ × F
  main args f = elim (parse_args (defaults capacity_bytes) args) [
    | err exit ↦ (exit, f)
    | ok o ↦ elim (open_storage o) [
      | err exit ↦ (exit, f)
      | ok s ↦ copy_env files o f (storage.read s o.offset o.size).0
    ]
  ]
