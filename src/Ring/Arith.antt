-- ===== src/Ring/Arith.antt =====
-- The index arithmetic of the ring.
use native.Mathlib.Nat.{mod-eq_of_lt, mod_self}
use int_platform_dpdk.Base.{
  ℕ, zero, suc, ◌+◌, ◌-◌, ◌%◌, ◌^◌, ◌<◌, ◌≡◌, ◌≢◌, refl, [], ◌∷◌, ◌++◌, ap, ap₂, sym, arith, dec_lt,
  update, update_self, update_ne,
}
use int_platform_dpdk.Ring.{next}
use int_platform_dpdk.Ring.Window.{step, distance, window}

unwrapped : (size i : ℕ) → size < 2 ^ 64 → i < size → (i + 1) % 2 ^ 64 ≡ i + 1
unwrapped size i small h = omega arith

pub next-eq-step : (size i : ℕ) → size < 2 ^ 64 → i < size → next size i ≡ step size i
unfolding next step
next-eq-step size i small h = elim (dec_lt (i + 1) size) [
  | yes inside ↦ rw (unwrapped size i small h) (rw (mod-eq_of_lt inside) (ground arith))
  | no last ↦
      let e : i + 1 ≡ size = omega arith in
      rw (unwrapped size i small h) (rw e (ground (arith, mod_self size)))
]

pub step-lt : (size i : ℕ) → i < size → step size i < size
unfolding step
step-lt size i h = ground arith

pub distance-step_tail :
    (size t h : ℕ)
    → t < size
    → h < size
    → t ≢ h
    → distance size t h ≡ suc (distance size (step size t) h)
unfolding distance step
distance-step_tail size t h ht hh ne = ground arith

pub distance-step_head :
    (size t h : ℕ)
    → t < size
    → h < size
    → step size h ≢ t
    → distance size t (step size h) ≡ suc (distance size t h)
unfolding distance step
distance-step_head size t h ht hh ne = ground arith

pub distance-full :
    (size t h : ℕ) → t < size → h < size → step size h ≡ t → distance size t h ≡ size - 1
unfolding distance step
distance-full size t h ht hh e = ground arith

pub distance-lt : (size t h : ℕ) → t < size → h < size → distance size t h < size
unfolding distance
distance-lt size t h ht hh = ground arith

pub distance-zero : (size t h : ℕ) → t < size → h < size → distance size t h ≡ 0 → t ≡ h
unfolding distance
distance-zero size t h ht hh e = ground arith

pub distance_self : (size t : ℕ) → distance size t t ≡ 0
unfolding distance
distance_self size t = ground arith

pub distance-full_conv :
    (size t h : ℕ) → t < size → h < size → distance size t h ≡ size - 1 → step size h ≡ t
unfolding distance step
distance-full_conv size t h ht hh e = ground arith

-- Writing the cell just past a window extends the window by the value.
pub window-update :
    {A : Type 0} (size : ℕ) (cells : ℕ → A) (x : A) (h n t : ℕ)
    → t < size
    → h < size
    → distance size t h ≡ n
    → window size (update cells h x) t (suc n) ≡ window size cells t n ++ (x ∷ [])
window-update size cells x h zero t ht hh e =
    rw (distance-zero size t h ht hh e) (rw (update_self cells h x) refl)
window-update size cells x h (suc n) t ht hh e =
    let ne : t ≢ h =
      (λ p. absurd (omega (arith, distance_self size h, e, ap (λ k. distance size k h) p))) in
    let shorter : distance size (step size t) h ≡ n =
      omega (arith, distance-step_tail size t h ht hh ne) in
    ap₂ ◌∷◌ (update_ne cells h t x (λ p. ne (sym p)))
      (window-update size cells x h n (step size t) (step-lt size t ht) hh shorter)
