-- ===== src/Mram/Driver/Chip.antt =====
-- What the MR2xH40 chip and U-Boot's SPI layer promise, as laws on a `Spi`: a write needs the latch
-- that WREN sets, and stores its bytes at the 24-bit address; a read answers with the bytes there.
use radsat_linux.Base.{
  ℕ, zero, suc, ◌+◌, ◌-◌, ◌*◌, ◌^◌, ◌<◌, ◌≤◌, ◌≡◌, refl, ap, ◌∙◌, Bool, true, [], ◌∷◌, some, Bytes,
  ltb, if◌then◌else◌, get_or, length, drop, arith,
}
use radsat_linux.Base.Int.{pos}
use radsat_linux.Mram.Driver.{Spi, config_env_size}

-- the memory after `bytes` were stored at `base`
abbrev pub written : ℕ → Bytes → (ℕ → ℕ) → ℕ → ℕ
written base bytes m n = if ltb n base then m n else get_or bytes (n - base) (m n)

-- `count` bytes of memory from an address on
unfoldable pub contents : (ℕ → ℕ) → ℕ → ℕ → Bytes
contents m a zero = []
contents m a (suc count) = m a ∷ contents m (a + 1) count

abbrev pub address : ℕ → ℕ → ℕ → ℕ
address high mid low = high * 2 ^ 16 + mid * 2 ^ 8 + low

pub record IsMram {S : Type 0} (spi : Spi S) (mem : S → ℕ → ℕ) (latch : S → Bool) : Type 0 where
  pub setup_ok : (s : S) → (t : S) × (spi.setup_slave s ≡ some t) × ((n : ℕ) → mem t n ≡ mem s n)
  pub free_mem : (s : S) (n : ℕ) → mem (spi.free_slave s) n ≡ mem s n
  pub claim_ok : (s : S) → (spi.claim_bus s).0 ≡ pos 0
  pub claim_mem : (s : S) (n : ℕ) → mem (spi.claim_bus s).1 n ≡ mem s n
  pub claim_latch : (s : S) → latch (spi.claim_bus s).1 ≡ latch s
  pub release_mem : (s : S) (n : ℕ) → mem (spi.release_bus s) n ≡ mem s n
  pub release_latch : (s : S) → latch (spi.release_bus s) ≡ latch s
  pub has_memory : (n : ℕ) → n ≤ 4 + config_env_size → spi.malloc_ok n ≡ true
  pub wren_ok : (s : S) → (spi.xfer s (0x06 ∷ [])).0 ≡ pos 0
  pub wren_mem : (s : S) (n : ℕ) → mem (spi.xfer s (0x06 ∷ [])).2 n ≡ mem s n
  pub wren_latch : (s : S) → latch (spi.xfer s (0x06 ∷ [])).2 ≡ true
  pub write_ok :
      (s : S) (high mid low : ℕ) (bytes : Bytes)
      → (spi.xfer s (0x02 ∷ high ∷ mid ∷ low ∷ bytes)).0 ≡ pos 0
  pub write_mem :
      (s : S) (high mid low : ℕ) (bytes : Bytes) (n : ℕ)
      → latch s ≡ true
      → mem (spi.xfer s (0x02 ∷ high ∷ mid ∷ low ∷ bytes)).2 n
        ≡ written (address high mid low) bytes (mem s) n
  pub read_ok :
      (s : S) (high mid low : ℕ) (pad : Bytes)
      → (spi.xfer s (0x03 ∷ high ∷ mid ∷ low ∷ pad)).0 ≡ pos 0
  pub read_bytes :
      (s : S) (high mid low : ℕ) (pad : Bytes)
      → drop 4 (spi.xfer s (0x03 ∷ high ∷ mid ∷ low ∷ pad)).1
        ≡ contents (mem s) (address high mid low) (length pad)

get_or_within : (bytes : Bytes) (i d e : ℕ) → i < length bytes → get_or bytes i d ≡ get_or bytes i e
get_or_within [] i d e h = elim h [ ]
get_or_within (x ∷ xs) zero d e h = refl
get_or_within (x ∷ xs) (suc i) d e h = get_or_within xs i d e (omega arith)

contents-eq :
    (m : ℕ → ℕ) (bytes : Bytes) (b : ℕ)
    → ((i : ℕ) → i < length bytes → m (b + i) ≡ get_or bytes i 0)
    → contents m b (length bytes) ≡ bytes
unfolding contents
contents-eq m [] b h = refl
contents-eq m (x ∷ xs) b h = λ i.
    (ap m (plus_zero b) ∙ h 0 (omega arith)) i
    ∷ contents-eq m xs (b + 1) (λ k hk. ap m (shift b k) ∙ h (suc k) (omega arith)) i
  where
    plus_zero : (b : ℕ) → b ≡ b + 0
    plus_zero b = omega arith

    shift : (b k : ℕ) → b + 1 + k ≡ b + suc k
    shift b k = omega arith

-- What was stored is there to be read.
pub contents-written :
    (m m' : ℕ → ℕ) (base : ℕ) (bytes : Bytes)
    → ((n : ℕ) → m' n ≡ written base bytes m n)
    → contents m' base (length bytes) ≡ bytes
contents-written m m' base bytes h =
    contents-eq m' bytes base (λ i hi. h (base + i) ∙ inside i (m (base + i)) hi)
  where
    inside :
        (i d : ℕ)
        → i < length bytes
        → (if ltb (base + i) base then d else get_or bytes (base + i - base) d) ≡ get_or bytes i 0
    inside i d hi =
        ground (arith, get_or_within bytes i d 0 hi, ap (λ (k : ℕ). get_or bytes k d) (back i))
      where
        back : (i : ℕ) → base + i - base ≡ i
        back i = omega arith

pub contents-cong :
    (m m' : ℕ → ℕ) (a n : ℕ) → ((k : ℕ) → m k ≡ m' k) → contents m a n ≡ contents m' a n
unfolding contents
contents-cong m m' a zero h = refl
contents-cong m m' a (suc n) h = λ i. h a i ∷ contents-cong m m' (a + 1) n h i
