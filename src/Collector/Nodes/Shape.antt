-- ===== src/Collector/Nodes/Shape.antt =====
-- Which records a report gets, and what is left for the next packet.
use int_platform_dpdk.Base.{
  ℕ, zero, suc, ◌+◌, ◌*◌, ◌≤◌, ◌<◌, ◌≡◌, refl, List, [], ◌∷◌, ◌++◌, arith, length, length-append,
  get_elem?, some,
}
use native.Mathlib.Nat.{add-zero, zero-add}
use int_platform_dpdk.Outcome.{ok}
use int_platform_dpdk.Types.{TelemetricMeta, TelemetricHdr}
use int_platform_dpdk.Packet.{Buffer, pkt_buf_size}
use int_platform_dpdk.Packet.Fields.{IsBytes}
use int_platform_dpdk.Collector.Nodes.{max_nodes, Timestamps, get_int_node_data}
use int_platform_dpdk.Collector.Nodes.Spec.{
  ingress_at, hop_record, hop_records, sink_record, stamped,
}
use int_platform_dpdk.Collector.Nodes.Result.{with_nodes, get_int_node_data_lem}

pub length-hop_records :
    (buff : Buffer) (off : ℕ) (prev : Timestamps) (i n : ℕ)
    → length (hop_records buff off prev i n) ≡ n
unfolding hop_records
length-hop_records buff off prev i zero = refl
length-hop_records buff off prev i (suc n) =
    omega (arith, length-hop_records buff off prev (i + 1) n)

hop_at :
    (buff : Buffer) (off : ℕ) (prev : Timestamps) (rest : List TelemetricMeta) (n i j : ℕ)
    → j < n
    → get_elem? (hop_records buff off prev i n ++ rest) j ≡ some (hop_record buff off prev (i + j))
unfolding hop_records
hop_at buff off prev rest zero i j h = elim h [ ]
hop_at buff off prev rest (suc n) i zero h = rw (add-zero i)
hop_at buff off prev rest (suc n) i (suc j) h =
    let e : i + suc j ≡ i + 1 + j = omega arith in
    rw e (hop_at buff off prev rest n (i + 1) j (omega arith))

last_at :
    (buff : Buffer) (off : ℕ) (prev : Timestamps) (m : TelemetricMeta) (n i : ℕ)
    → get_elem? (hop_records buff off prev i n ++ (m ∷ [])) n ≡ some m
unfolding hop_records
last_at buff off prev m zero i = refl
last_at buff off prev m (suc n) i = last_at buff off prev m n (i + 1)

-- What one packet of `n` hops leaves behind: its records, read off the packet, and the timestamps
-- against which the jitter of the next packet is taken.
pub record Shape (buff : Buffer) (off n : ℕ) (prev : Timestamps) (r : TelemetricHdr × Timestamps)
    : Type 0 where
  pub count : length r.0.node_meta ≡ n + 1
  pub hops : (j : ℕ) → j < n → get_elem? r.0.node_meta j ≡ some (hop_record buff off prev j)
  pub sink : get_elem? r.0.node_meta n ≡ some (sink_record buff off prev n r.0.dst_ts)
  pub kept_hops : (j : ℕ) → j < n → r.1 j ≡ ingress_at buff off j
  pub kept_sink : r.1 n ≡ r.0.dst_ts
  pub untouched : (j : ℕ) → n < j → r.1 j ≡ prev j

-- A packet of bytes with fewer than `max_nodes` hops, in a buffer with room for `max_nodes` of
-- them, and for a report without records yet, is taken without a fault. The report has one record
-- for each hop, in order, and the sink's last; the array then holds the ingress timestamp of every
-- hop and the sink's timestamp, and its other cells are untouched.
pub get_int_node_data-Shape :
    (hdr : TelemetricHdr) (buff : Buffer) (off n : ℕ) (prev : Timestamps)
    → IsBytes buff
    → off + 24 * max_nodes ≤ pkt_buf_size
    → n < max_nodes
    → hdr.node_meta ≡ []
    → (r : TelemetricHdr × Timestamps) × (get_int_node_data hdr buff off n prev ≡ ok r)
      × Shape buff off n prev r
unfolding with_nodes stamped
get_int_node_data-Shape hdr buff off n prev bytes inside few fresh = (
  with_nodes hdr buff off n prev,
  get_int_node_data_lem hdr buff off n prev bytes inside few,
  record {
    count = rw (
      fresh,
      length-append (hop_records buff off prev 0 n),
      length-hop_records buff off prev 0 n,
    );
    hops = λ j h. rw (fresh) (rw (hop_at buff off prev _ n 0 j h, zero-add j));
    sink = rw (fresh) (last_at buff off prev _ n 0);
    kept_hops = λ j h. ground arith;
    kept_sink = ground arith;
    untouched = λ j h. ground arith;
  },
)
