-- ===== src/Text.antt =====
-- What libc prints for the program: text as the list of its bytes, and the conversions %u, %lu, %ld
-- and %li of printf, of values of at most 64 bits.
pub mod Bounds
pub mod Pieces
pub mod Numbers
use Prim.Native.Char.{code}
use Prim.Native.String.{String}
use int_platform_dpdk.Base.{
  ℕ, zero, suc, ◌+◌, ◌/◌, ◌%◌, ◌≡◌, refl, List, [], ◌∷◌, ◌++◌, ltb, if◌then◌else◌, ℤ, pos, negsuc,
}

-- The bytes of an ASCII text.
abbrev pub codes : String → List ℕ
codes String.[] = []
codes (String.◌∷◌ letter rest) = code letter ∷ codes rest

-- At most as many digits as the fuel says.
unfoldable pub digits : ℕ → ℕ → List ℕ
digits zero n = []
digits (suc k) n = if ltb n 10 then (b'0' + n) ∷ [] else digits k (n / 10) ++ ((b'0' + n % 10) ∷ [])

-- %u and %lu: 2 ^ 64 has twenty digits.
unfoldable pub show_ℕ : ℕ → List ℕ
unfolding digits
show_ℕ n = digits 20 n

-- %ld and %li.
unfoldable pub show_ℤ : ℤ → List ℕ
unfolding show_ℕ
show_ℤ (pos n) = show_ℕ n
show_ℤ (negsuc n) = b'-' ∷ show_ℕ (suc n)

print_test :
    show_ℕ 18446744073709551615 ++ (b' ' ∷ show_ℤ (negsuc 41)) ≡ codes "18446744073709551615 -42"
unfolding show_ℤ
print_test = refl
