-- ===== src/Text/Bounds.antt =====
-- How many bytes a printed number takes.
use native.Mathlib.Nat.{pow-succ'}
use int_platform_dpdk.Base.{
  ℕ, zero, suc, ◌+◌, ◌*◌, ◌/◌, ◌%◌, ◌^◌, ◌≤◌, ◌<◌, length, length-snoc, arith, ltb, Bool-cases, inl,
  inr, ℤ, pos, negsuc,
}
use int_platform_dpdk.Text.{digits, show_ℕ, show_ℤ}

tenth_lt : (n p : ℕ) → n < 10 * p → n / 10 < p
tenth_lt n p h = omega arith

length-digits_fuel : (fuel n : ℕ) → length (digits fuel n) ≤ fuel
unfolding digits
length-digits_fuel zero n = omega arith
length-digits_fuel (suc k) n =
    ground (arith, length-digits_fuel k (n / 10), length-snoc (digits k (n / 10)) (b'0' + n % 10))

length-digits : (k fuel n : ℕ) → n < 10 ^ suc k → length (digits fuel n) ≤ suc k
unfolding digits
length-digits k zero n h = omega arith
length-digits zero (suc fuel) n h = ground (arith)
length-digits (suc k) (suc fuel) n h = elim (Bool-cases (ltb n 10)) [
  | inl small ↦ rw small (omega arith)
  | inr big ↦ rw big (
      rw (length-snoc (digits fuel (n / 10)) (b'0' + n % 10))
        (omega (arith, length-digits k fuel (n / 10) fewer)))
]
  where
    fewer : n / 10 < 10 ^ suc k
    fewer = tenth_lt n (10 ^ suc k) (rw (← pow-succ' 10 (suc k)) h)

-- A number below 10 ^ (k + 1) takes at most k + 1 bytes.
pub length-show_ℕ : (k n : ℕ) → n < 10 ^ suc k → length (show_ℕ n) ≤ suc k
unfolding show_ℕ
length-show_ℕ k n h = length-digits k 20 n h

pub length-show_u64 : (n : ℕ) → length (show_ℕ n) ≤ 20
unfolding show_ℕ
length-show_u64 n = length-digits_fuel 20 n

pub length-show_ℤ : (a : ℤ) → length (show_ℤ a) ≤ 21
unfolding show_ℤ
length-show_ℤ (pos n) = omega (arith, length-show_u64 n)
length-show_ℤ (negsuc n) = omega (arith, length-show_u64 (suc n))
