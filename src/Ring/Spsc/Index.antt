-- ===== src/Ring/Spsc/Index.antt =====
-- How far apart two indices are after a number of stores each.
use int_platform_dpdk.Base.{
  ℕ, zero, suc, ◌+◌, ◌-◌, ◌^◌, ◌≤◌, ◌<◌, ◌≡◌, ◌≢◌, refl, sym, ap, ◌∙◌, [], ◌∷◌, ◌++◌, arith, update,
  update_ne, ap₂, dec_lt,
}
use int_platform_dpdk.Ring.{next}
use int_platform_dpdk.Ring.Window.{step, distance, window}
use int_platform_dpdk.Ring.Arith.{
  next-eq-step, step-lt, distance-step_head, distance-step_tail, distance-full, distance_self,
  distance-zero, distance-full_conv,
}
use int_platform_dpdk.Ring.Spsc.{index}

pub index-next : (size n : ℕ) → index size (suc n) ≡ next size (index size n)
unfolding index
index-next size n = refl

module _ (size : ℕ) (pos : 0 < size) (small : size < 2 ^ 64) where
  pub index-lt : (n : ℕ) → index size n < size
  unfolding index
  index-lt zero = pos
  index-lt (suc n) =
      rw (next-eq-step size (index size n) small (index-lt n)) (step-lt size _ (index-lt n))

  pub index-suc : (n : ℕ) → index size (suc n) ≡ step size (index size n)
  unfolding index
  index-suc n = next-eq-step size (index size n) small (index-lt n)

  distance-index-suc :
      (k m n : ℕ)
      → suc n < size
      → distance size (index size k) (index size m) ≡ n
      → distance size (index size k) (index size (suc m)) ≡ suc n
  distance-index-suc k m n h before = rw (index-suc m) (
      distance-step_head size (index size k) (index size m) (index-lt k) (index-lt m) apart
      ∙ ap suc before)
    where
      apart : step size (index size m) ≢ index size k
      apart p = omega (
        arith,
        before,
        distance-full size (index size k) (index size m) (index-lt k) (index-lt m) p,
      )

  pub distance-index :
      (n k m : ℕ) → m ≡ k + n → n < size → distance size (index size k) (index size m) ≡ n
  distance-index zero k m e h =
      let same : m ≡ k = omega arith in rw same (distance_self size (index size k))
  distance-index (suc n) k zero e h = absurd (omega arith)
  distance-index (suc n) k (suc m) e h =
      distance-index-suc k m n h (distance-index n k m (omega arith) (omega arith))

  -- Two indices fewer than `size` stores apart are different cells.
  pub index-ne : (k m : ℕ) → k < m → m < k + size → index size k ≢ index size m
  index-ne k m lt near p = omega (
    arith,
    distance-index (m - k) k m (omega arith) (omega arith),
    distance_self size (index size m),
    ap (λ i. distance size i (index size m)) p,
  )

  -- A full ring shows up as `next head == tail`.
  pub next-index :
      (k m : ℕ) → k ≤ m → m < k + size → next size (index size m) ≢ index size k → m + 1 < k + size
  next-index k m le near ne = elim (dec_lt (m + 1) (k + size)) [
    | yes h ↦ h
    | no h ↦ absurd (
        ne (
          next-eq-step size (index size m) small (index-lt m)
          ∙ distance-full_conv size (index size k) (index size m) (index-lt k) (index-lt m)
              (distance-index (m - k) k m (omega arith) (omega arith) ∙ omega arith)))
  ]

-- A write at the cell just past a window leaves the window.
pub window-update_past :
    {A : Type 0} (size : ℕ) (cells : ℕ → A) (x : A) (h n t : ℕ)
    → t < size
    → h < size
    → distance size t h ≡ n
    → window size (update cells h x) t n ≡ window size cells t n
window-update_past size cells x h zero t ht hh e = refl
window-update_past size cells x h (suc n) t ht hh e =
    let ne : t ≢ h =
      (λ p. absurd (omega (arith, distance_self size h, e, ap (λ k. distance size k h) p))) in
    let shorter : distance size (step size t) h ≡ n =
      omega (arith, distance-step_tail size t h ht hh ne) in
    ap₂ ◌∷◌ (update_ne cells h t x (λ p. ne (sym p)))
      (window-update_past size cells x h n (step size t) (step-lt size t ht) hh shorter)

-- The window that takes in the cell just past it.
pub window-snoc :
    {A : Type 0} (size : ℕ) (cells : ℕ → A) (h n t : ℕ)
    → t < size
    → h < size
    → distance size t h ≡ n
    → window size cells t (suc n) ≡ window size cells t n ++ (cells h ∷ [])
window-snoc size cells h zero t ht hh e = rw (distance-zero size t h ht hh e)
window-snoc size cells h (suc n) t ht hh e =
    let ne : t ≢ h =
      (λ p. absurd (omega (arith, distance_self size h, e, ap (λ k. distance size k h) p))) in
    let shorter : distance size (step size t) h ≡ n =
      omega (arith, distance-step_tail size t h ht hh ne) in
    ap (λ w. cells t ∷ w) (window-snoc size cells h n (step size t) (step-lt size t ht) hh shorter)

-- The window that has a value begins with the cell at its index.
pub window-uncons :
    {A : Type 0} (size : ℕ) (cells : ℕ → A) (t n : ℕ)
    → 0 < n
    → window size cells t n ≡ cells t ∷ window size cells (step size t) (n - 1)
window-uncons size cells t zero h = elim h [ ]
window-uncons size cells t (suc n) h =
    ap (λ k. cells t ∷ window size cells (step size t) k) (omega arith)
