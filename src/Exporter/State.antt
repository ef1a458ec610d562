-- ===== src/Exporter/State.antt =====
-- The invariant of the exporter, and the order in which `sendData` tries the rings.
use native.Mathlib.Nat.{mod-eq_of_lt, mod_self}
use int_platform_dpdk.Base.{
  ℕ, zero, suc, ◌+◌, ◌-◌, ◌%◌, ◌<◌, ◌^◌, ◌≡◌, ◌≢◌, refl, sym, ap, ◌∙◌, ◌⊎◌, List, arith, length,
  get_elem?, set, some, dec_lt, ℕ_discrete, get_elem?-set_ne, eq_of_get_elem?-set,
}
use int_platform_dpdk.Words.{u32}
use int_platform_dpdk.Ring.Window.{step, distance, contents}
use int_platform_dpdk.Ring.Window
use int_platform_dpdk.Ring.Arith.{
  step-lt, distance-step_tail, distance-zero, distance-lt, distance_self,
}
use int_platform_dpdk.Exporter.{IntExporter, Buffered, ring_buffer_size}

-- Every ring of the list is valid.
abbrev pub AllValid : List Buffered → Type 0
AllValid rings =
    (i : ℕ) (r : Buffered) → get_elem? rings i ≡ some r → Window.IsValid ring_buffer_size r

pub record IsValid (e : IntExporter) : Type 0 where
  pub small : e.th_num < 2 ^ 32
  pub counted : length e.ring_buffs ≡ e.th_num
  pub turn : (e.rr_index < e.th_num) ⊎ (e.rr_index ≡ 0)
  pub rings : AllValid e.ring_buffs

-- The ring at an index holds all that it can.
abbrev pub FullAt : List Buffered → ℕ → Type 0
FullAt rings i =
    (r : Buffered)
    → get_elem? rings i ≡ some r
    → length (contents ring_buffer_size r) ≡ ring_buffer_size - 1

pub AllValid-set :
    (rings : List Buffered) (i : ℕ) (r : Buffered)
    → AllValid rings
    → Window.IsValid ring_buffer_size r
    → AllValid (set rings i r)
AllValid-set rings i r all v j q e = elim (ℕ_discrete i j) [
  | yes same ↦ rw (eq_of_get_elem?-set rings j r (rw (same) at e)) v
  | no other ↦ all j q (sym (get_elem?-set_ne rings r other) ∙ e)
]

-- The index that `sendData` moves to.
pub next_turn : (n i : ℕ) → n < 2 ^ 32 → i < n → u32 (i + 1) % n ≡ step n i
unfolding step
next_turn n i small h = elim (dec_lt (i + 1) n) [
  | yes inside ↦ rw (unwrapped) (rw (mod-eq_of_lt inside) (ground arith))
  | no last ↦ let e : i + 1 ≡ n = omega arith in rw (unwrapped) (rw e (ground (arith, mod_self n)))
]
  where
    unwrapped : u32 (i + 1) ≡ i + 1
    unwrapped = omega arith

-- The `j`-th index after `s`.
pub walk : ℕ → ℕ → ℕ → ℕ
walk n s zero = s
walk n s (suc j) = walk n (step n s) j

pub walk-zero : (n s : ℕ) → walk n s 0 ≡ s
unfolding walk
walk-zero n s = refl

pub walk-suc : (n s j : ℕ) → walk n s (suc j) ≡ walk n (step n s) j
unfolding walk
walk-suc n s j = refl

-- As many steps as the distance lead from one index to another.
walk-distance : (n d s m : ℕ) → s < n → m < n → distance n s m ≡ d → walk n s d ≡ m
unfolding walk
walk-distance n zero s m hs hm e = distance-zero n s m hs hm e
walk-distance n (suc d) s m hs hm e =
    walk-distance n d (step n s) m (step-lt n s hs) hm
      (omega (arith, distance-step_tail n s m hs hm ne))
  where
    ne : s ≢ m
    ne p = absurd (omega (arith, e, distance_self n m, ap (λ k. distance n k m) p))

-- `n` rounds reach every index.
pub walk_covers : (n s m : ℕ) → s < n → m < n → (j : ℕ) × (j < n) × (walk n s j ≡ m)
walk_covers n s m hs hm =
    (distance n s m, distance-lt n s m hs hm, walk-distance n (distance n s m) s m hs hm refl)
