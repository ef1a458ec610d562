-- ===== src/Text/Numbers.antt =====
-- Printed numbers, read back.
use native.Mathlib.Numerals.{unary_clauses}
use int_platform_dpdk.Base.{
  ℕ, zero, suc, ◌+◌, ◌-◌, ◌*◌, ◌/◌, ◌%◌, ◌^◌, ◌<◌, ◌≡◌, ◌⊎◌, inl, inr, refl, ap, ◌∙◌, List, [], ◌∷◌,
  ◌++◌, true, false, ltb, ltb→lt, ◌==◌, if◌then◌else◌, arith, Bool-cases, ℤ, pos, negsuc, pos_part,
  neg_part,
}
use int_platform_dpdk.Text.{digits, show_ℕ, show_ℤ}
use int_platform_dpdk.Text.Pieces.{lacks, lacks-append}

-- The number that digits spell, behind `n`.
unfoldable pub number_from : ℕ → List ℕ → ℕ
number_from n [] = n
number_from n (c ∷ cs) = number_from (n * 10 + (c - b'0')) cs

unfoldable pub number : List ℕ → ℕ
number text = number_from 0 text

abbrev pub negative : ℕ → ℤ
negative zero = pos 0
negative (suc n) = negsuc n

unfoldable pub integer : List ℕ → ℤ
integer [] = pos 0
integer (c ∷ cs) = if c == b'-' then negative (number cs) else pos (number (c ∷ cs))

number_from-snoc :
    (n : ℕ) (cs : List ℕ) (c : ℕ)
    → number_from n (cs ++ (c ∷ [])) ≡ number_from n cs * 10 + (c - b'0')
unfolding number_from
number_from-snoc n [] c = refl
number_from-snoc n (d ∷ cs) c = number_from-snoc (n * 10 + (d - b'0')) cs c

number-digits : (k n : ℕ) → n < 10 ^ k → number_from 0 (digits k n) ≡ n
unfolding digits number_from
number-digits zero n h = omega arith
number-digits (suc k) n h = elim (Bool-cases (ltb n 10)) [
  | inl e ↦ rw e (omega arith)
  | inr e ↦
      let power : 10 ^ suc k ≡ 10 * 10 ^ k = simp unary_clauses (omega arith) in
      rw (e, number_from-snoc 0 (digits k (n / 10)) (b'0' + n % 10))
        (omega (arith, number-digits k (n / 10) (omega (arith, power))))
]

pub number-show_ℕ : (n : ℕ) → n < 2 ^ 64 → number (show_ℕ n) ≡ n
unfolding number show_ℕ
number-show_ℕ n h = number-digits 20 n (omega arith)

-- A character that is no digit.
abbrev pub NoDigit : ℕ → Type 0
NoDigit c = (c < b'0') ⊎ (b'9' < c)

lacks-digits : (c : ℕ) → NoDigit c → (k n : ℕ) → lacks c (digits k n) ≡ true
unfolding digits lacks
lacks-digits c other zero n = refl
lacks-digits c other (suc k) n = elim (Bool-cases (ltb n 10)) [
  | inl e ↦ rw e (ground (arith, ltb→lt n 10 e))
  | inr e ↦
      rw
        (
          e,
          lacks-append c (digits k (n / 10)) ((b'0' + n % 10) ∷ []),
          lacks-digits c other k (n / 10),
        )
        (ground arith)
]

pub lacks-show_ℕ : (c : ℕ) → NoDigit c → (n : ℕ) → lacks c (show_ℕ n) ≡ true
unfolding show_ℕ
lacks-show_ℕ c other n = lacks-digits c other 20 n

pub lacks-show_ℤ : (c : ℕ) → NoDigit c → (c == b'-') ≡ false → (z : ℤ) → lacks c (show_ℤ z) ≡ true
unfolding show_ℤ lacks
lacks-show_ℤ c other ne (pos n) = lacks-show_ℕ c other n
lacks-show_ℤ c other ne (negsuc n) = ground (arith, lacks-show_ℕ c other (suc n))

integer_unsigned : (cs : List ℕ) → lacks b'-' cs ≡ true → integer cs ≡ pos (number cs)
unfolding integer lacks number number_from
integer_unsigned [] h = refl
integer_unsigned (c ∷ cs) h = ground arith

pub integer-show_ℕ : (n : ℕ) → n < 2 ^ 64 → integer (show_ℕ n) ≡ pos n
integer-show_ℕ n h =
    integer_unsigned (show_ℕ n) (lacks-show_ℕ b'-' (inl (omega arith)) n)
    ∙ ap pos (number-show_ℕ n h)

pub integer-show_ℤ : (z : ℤ) → pos_part z < 2 ^ 64 → neg_part z < 2 ^ 64 → integer (show_ℤ z) ≡ z
unfolding show_ℤ integer
integer-show_ℤ (pos n) h k = integer-show_ℕ n h
integer-show_ℤ (negsuc n) h k = ap negative (number-show_ℕ (suc n) k)
