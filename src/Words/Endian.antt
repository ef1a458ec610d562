-- ===== src/Words/Endian.antt =====
-- The byte order of the wire and of the host, which is little-endian (x86_64, as DPDK is built for).
-- `ntohs` and `ntohl` are libc's; `ntoh64` is int_t4p4s_dpdk/p4int_influxdb/p4int.cc's.
use int_platform_dpdk.Base.{ℕ, ◌+◌, ◌*◌, ◌/◌, ◌^◌, ◌<◌, ◌≡◌, arith, List, [], ◌∷◌}
use int_platform_dpdk.Words.{u8}

-- `value >> k`.
abbrev pub shr : ℕ → ℕ → ℕ
shr value k = value / 2 ^ k

-- The word that bytes in memory make, the first one the lowest.
abbrev pub little_endian : List ℕ → ℕ
little_endian [] = 0
little_endian (b ∷ bs) = b + 256 * little_endian bs

unfoldable pub ntohs : ℕ → ℕ
ntohs value = little_endian (u8 (shr value 8) ∷ u8 value ∷ [])

unfoldable pub ntohl : ℕ → ℕ
ntohl value =
    little_endian (u8 (shr value 24) ∷ u8 (shr value 16) ∷ u8 (shr value 8) ∷ u8 value ∷ [])

-- The bytes `data[0]` to `data[7]` of `rval`.
unfoldable pub ntoh64 : ℕ → ℕ
ntoh64 value = little_endian (
    u8 (shr value 56)
    ∷ u8 (shr value 48)
    ∷ u8 (shr value 40)
    ∷ u8 (shr value 32)
    ∷ u8 (shr value 24)
    ∷ u8 (shr value 16)
    ∷ u8 (shr value 8)
    ∷ u8 (shr value 0)
    ∷ [])

pub ntoh64-lt : (v : ℕ) → ntoh64 v < 2 ^ 64
unfolding ntoh64
ntoh64-lt v = omega arith

pub ntohl-lt : (v : ℕ) → ntohl v < 2 ^ 32
unfolding ntohl
ntohl-lt v = omega arith

pub ntohs-lt : (v : ℕ) → ntohs v < 2 ^ 16
unfolding ntohs
ntohs-lt v = omega arith

-- Read from memory and converted, eight bytes are the number that they spell, the first one the
-- highest.
pub ntoh64-little_endian :
    (a b c d e f g h : ℕ)
    → a < 256
    → b < 256
    → c < 256
    → d < 256
    → e < 256
    → f < 256
    → g < 256
    → h < 256
    → ntoh64 (little_endian (a ∷ b ∷ c ∷ d ∷ e ∷ f ∷ g ∷ h ∷ []))
      ≡ ((((((a * 256 + b) * 256 + c) * 256 + d) * 256 + e) * 256 + f) * 256 + g) * 256 + h
unfolding ntoh64
ntoh64-little_endian a b c d e f g h ha hb hc hd he hf hg hh = omega arith

-- Converting a 64-bit word twice gives it back.
pub ntoh64_involutive : (v : ℕ) → v < 2 ^ 64 → ntoh64 (ntoh64 v) ≡ v
unfolding ntoh64
ntoh64_involutive v lt = omega arith
