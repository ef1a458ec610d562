-- ===== src/Samples/Safe.antt =====
-- Arrivals that the collector can take.
use int_platform_dpdk.Base.{◌<◌, List, [], ◌∷◌, Bool, inr, arith}
use int_platform_dpdk.Types.{Options}
use int_platform_dpdk.Packet.{Buffer}
use int_platform_dpdk.Packet.Fields.{le_at, IsBytes}
use int_platform_dpdk.Samples.{packet, packet-IsBytes}
use int_platform_dpdk.Collector.Packets.{Arrival, received}
use int_platform_dpdk.Collector.Packets.Once.{hops}
use int_platform_dpdk.Collector.Packets.Process.{IsSafe}
use int_platform_dpdk.Collector.Packets.Loop.{AllSafe}

abbrev pub blank : Buffer
blank i = 0

-- The packet of two hops, and whether the signal comes during the wait for it.
abbrev pub arrival : Bool → Arrival
arrival hit = record { count = 98; bytes = packet; interrupted = hit }

abbrev pub arrivals_of : List Bool → List Arrival
arrivals_of [] = []
arrivals_of (hit ∷ hits) = arrival hit ∷ arrivals_of hits

arrival-IsBytes :
    (buff : Buffer) (hit : Bool) → IsBytes buff → IsBytes (received buff (arrival hit))
unfolding received
arrival-IsBytes buff hit bytes i = ground (arith, bytes i, packet-IsBytes i)

arrival-IsSafe :
    (opt : Options) (buff : Buffer) (hit : Bool)
    → IsBytes buff
    → 0 < opt.smpl_rate
    → IsSafe opt (received buff (arrival hit))
unfolding received le_at hops
arrival-IsSafe opt buff hit bytes rate = record {
  bytes = arrival-IsBytes buff hit bytes;
  divides = omega arith;
  few = omega arith;
  rate = inr rate;
}

pub arrivals_of-AllSafe :
    (opt : Options) (buff : Buffer) (hits : List Bool)
    → IsBytes buff
    → 0 < opt.smpl_rate
    → AllSafe opt buff (arrivals_of hits)
arrivals_of-AllSafe opt buff [] bytes rate = tt
arrivals_of-AllSafe opt buff (hit ∷ hits) bytes rate = (
  arrival-IsSafe opt buff hit bytes rate,
  arrivals_of-AllSafe opt (received buff (arrival hit)) hits (arrival-IsBytes buff hit bytes) rate,
)

pub blank-IsBytes : IsBytes blank
blank-IsBytes i = omega arith
