-- ===== src/Words.antt =====
-- Machine words as native numbers: the wrap-around is written out, and a signed word is the integer
-- that its bit pattern stands for.
pub mod Endian
mod Tests
use int_platform_dpdk.Base.{
  ℕ, ◌+◌, ◌-◌, ◌*◌, ◌/◌, ◌%◌, ◌^◌, ◌<◌, ◌≡◌, arith, ltb, if◌then◌else◌, ℤ, pos, negsuc, pos_part,
  neg_part,
}

abbrev pub u8 : ℕ → ℕ
u8 n = n % 2 ^ 8

abbrev pub u16 : ℕ → ℕ
u16 n = n % 2 ^ 16

abbrev pub u32 : ℕ → ℕ
u32 n = n % 2 ^ 32

abbrev pub u64 : ℕ → ℕ
u64 n = n % 2 ^ 64

-- `a - b` in `uint64_t`.
unfoldable pub sub64 : ℕ → ℕ → ℕ
sub64 a b = (a + (2 ^ 64 - b % 2 ^ 64)) % 2 ^ 64

-- A `uint64_t` converted to `int64_t`.
unfoldable pub signed64 : ℕ → ℤ
signed64 w =
    if ltb (w % 2 ^ 64) (2 ^ 63) then pos (w % 2 ^ 64) else negsuc (2 ^ 64 - w % 2 ^ 64 - 1)

-- An `int64_t` converted to `uint64_t`.
unfoldable pub unsigned64 : ℤ → ℕ
unsigned64 (pos n) = n % 2 ^ 64
unsigned64 (negsuc n) = 2 ^ 64 - n % 2 ^ 64 - 1

pub unsigned64-signed64 : (w : ℕ) → unsigned64 (signed64 w) ≡ w % 2 ^ 64
unfolding unsigned64 signed64
unsigned64-signed64 w = ground arith

pub sub64-lt : (a b : ℕ) → sub64 a b < 2 ^ 64
unfolding sub64
sub64-lt a b = omega arith

-- A difference and what was taken away make up the word again.
pub sub64-add : (a b : ℕ) → (sub64 a b + b) % 2 ^ 64 ≡ a % 2 ^ 64
unfolding sub64
sub64-add a b = omega arith

-- Where the true difference fits, its bit pattern stands for it.
pub signed64-sub64 :
    (a b : ℕ)
    → a < 2 ^ 63
    → b < 2 ^ 63
    → let r = signed64 (sub64 a b) in pos_part r + b ≡ a + neg_part r
unfolding signed64 sub64
signed64-sub64 a b ha hb = ground arith

pub sub64-sub64 : (a b c : ℕ) → sub64 (sub64 a b) c ≡ sub64 a (b + c)
unfolding sub64
sub64-sub64 a b c = omega arith
