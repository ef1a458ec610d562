-- ===== src/Ring/Window.antt =====
-- What a ring holds, read off its two indices, and the invariant of the indices.
use int_platform_dpdk.Base.{
  ℕ, zero, suc, ◌+◌, ◌-◌, ◌<◌, ◌^◌, ◌≡◌, refl, List, [], ◌∷◌, length, ap, leb, ◌==◌, if◌then◌else◌,
}
use int_platform_dpdk.Ring.{Ring}

-- Both indices lie inside the array, and no index computation wraps in `size_t`.
pub record IsValid {A : Type 0} (size : ℕ) (r : Ring A) : Type 0 where
  pub small : size < 2 ^ 64
  pub head_in : r.head < size
  pub tail_in : r.tail < size

-- The index after `i`, written without `%`.
unfoldable pub step : ℕ → ℕ → ℕ
step size i = if i + 1 == size then 0 else i + 1

-- How many steps lead from `tail` to `head`.
unfoldable pub distance : ℕ → ℕ → ℕ → ℕ
distance size tail head = if leb tail head then head - tail else head + size - tail

-- The `n` cells from index `i` on, going round at `size`.
abbrev pub window : {A : Type 0} → ℕ → (ℕ → A) → ℕ → ℕ → List A
window size cells i zero = []
window size cells i (suc n) = cells i ∷ window size cells (step size i) n

-- The values that a ring holds, oldest first.
abbrev pub contents : {A : Type 0} → ℕ → Ring A → List A
contents size r = window size r.ring r.tail (distance size r.tail r.head)

pub length-window :
    {A : Type 0} (size : ℕ) (cells : ℕ → A) (i n : ℕ) → length (window size cells i n) ≡ n
length-window size cells i zero = refl
length-window size cells i (suc n) = ap suc (length-window size cells (step size i) n)
