-- ===== src/Pipeline/Inv.antt =====
-- What holds of the rings and the threads after every turn.
use int_platform_dpdk.Base.{
  ℕ, ◌≡◌, List, [], ◌∷◌, ◌++◌, some, get_elem?, ◌==◌, if◌then◌else◌, arith,
}
use int_platform_dpdk.Types.{TelemetricHdr}
use int_platform_dpdk.Ring.Window.{contents}
use int_platform_dpdk.Sender.Lossless.{AllAddresses}
use int_platform_dpdk.Sender.Blocks.{Blocks}
use int_platform_dpdk.Exporter.{Buffered, ring_buffer_size}
use int_platform_dpdk.Exporter.State
use int_platform_dpdk.Pipeline.{Threads, Turn, exported, polled}

-- The reports that went to ring `i`, in order.
unfoldable pub routed : ℕ → List (ℕ × TelemetricHdr) → List TelemetricHdr
routed i [] = []
routed i ((k, t) ∷ log) = if k == i then t ∷ routed i log else routed i log

-- The reports among the turns.
abbrev pub exports : List Turn → List TelemetricHdr
exports [] = []
exports (exported t ∷ ts) = t ∷ exports ts
exports (polled i ∷ ts) = exports ts

pub routed-snoc :
    (i k : ℕ) (t : TelemetricHdr) (log : List (ℕ × TelemetricHdr))
    → routed i (log ++ ((k, t) ∷ [])) ≡ routed i log ++ (if k == i then t ∷ [] else [])
unfolding routed
routed-snoc i k t [] = ground arith
routed-snoc i k t ((j, u) ∷ log) = ground (arith, routed-snoc i k t log)

pub AllAddresses-append :
    (xs ys : List TelemetricHdr) → AllAddresses xs → AllAddresses ys → AllAddresses (xs ++ ys)
AllAddresses-append [] ys f g = g
AllAddresses-append (x ∷ xs) ys (v, f) g = (v, AllAddresses-append xs ys f g)

pub AllAddresses-suffix : (xs ys : List TelemetricHdr) → AllAddresses (xs ++ ys) → AllAddresses ys
AllAddresses-suffix [] ys f = f
AllAddresses-suffix (x ∷ xs) ys (v, f) = AllAddresses-suffix xs ys f

pub record Inv (p : Threads) : Type 0 where
  pub valid : State.IsValid p.exporter
  pub fifo :
      (i : ℕ) (r : Buffered)
      → get_elem? p.exporter.ring_buffs i ≡ some r
      → routed i p.accepted ≡ p.popped i ++ contents ring_buffer_size r
  pub blocks : (i : ℕ) → Blocks (p.senders i) (p.popped i)
  pub addresses : (i : ℕ) → AllAddresses (routed i p.accepted)
