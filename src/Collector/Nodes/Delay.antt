-- ===== src/Collector/Nodes/Delay.antt =====
-- How the delays of a report add up.
use int_platform_dpdk.Base.{
  ℕ, zero, suc, ◌+◌, ◌-◌, ◌*◌, ◌%◌, ◌≤◌, ◌<◌, ◌^◌, ◌≡◌, refl, List, [], ◌∷◌, ◌++◌, arith, ◌==◌,
  false,
}
use native.Mathlib.Nat.{add-zero, zero-add}
use native.Mathlib.Numerals.{add-one}
use int_platform_dpdk.Outcome.{ok}
use int_platform_dpdk.Words.{sub64, sub64-add, unsigned64, unsigned64-signed64}
use int_platform_dpdk.Types.{TelemetricMeta, TelemetricHdr}
use int_platform_dpdk.Packet.{Buffer, pkt_buf_size}
use int_platform_dpdk.Packet.Fields.{IsBytes}
use int_platform_dpdk.Collector.Nodes.{max_nodes, Timestamps, get_int_node_data}
use int_platform_dpdk.Collector.Nodes.Spec.{
  ingress_at, egress_at, hop_record, hop_records, sink_record,
}
use int_platform_dpdk.Collector.Nodes.Result.{with_nodes, get_int_node_data_lem}

abbrev pub hop_total : List TelemetricMeta → ℕ
hop_total [] = 0
hop_total (m ∷ metas) = m.hop_delay + hop_total metas

abbrev pub link_total : List TelemetricMeta → ℕ
link_total [] = 0
link_total (m ∷ metas) = unsigned64 m.link_delay + link_total metas

pub hop_total-append :
    (xs ys : List TelemetricMeta) → hop_total (xs ++ ys) ≡ hop_total xs + hop_total ys
hop_total-append [] ys = omega arith
hop_total-append (x ∷ xs) ys = omega (arith, hop_total-append xs ys)

pub link_total-append :
    (xs ys : List TelemetricMeta) → link_total (xs ++ ys) ≡ link_total xs + link_total ys
link_total-append [] ys = omega arith
link_total-append (x ∷ xs) ys = omega (arith, link_total-append xs ys)

module _ (buff : Buffer) (off : ℕ) (prev : Timestamps) where
  link_lem :
      (i : ℕ)
      → unsigned64 (hop_record buff off prev (suc i)).link_delay
        ≡ sub64 (egress_at buff off i) (ingress_at buff off (suc i)) % 2 ^ 64
  unfolding hop_record
  link_lem i =
      let before : suc i - 1 ≡ i = omega arith in
      let later : (suc i == 0) ≡ false = ground arith in rw (later, before) (unsigned64-signed64 _)

  hop_lem :
      (i : ℕ)
      → (hop_record buff off prev i).hop_delay
        ≡ sub64 (egress_at buff off i) (ingress_at buff off i)
  unfolding hop_record
  hop_lem i = refl

  first_link : unsigned64 (hop_record buff off prev 0).link_delay ≡ 0
  unfolding hop_record unsigned64
  first_link = refl

  -- Between the egress of one hop and of a later one lie the link and hop delays in between.
  chained :
      (n i : ℕ)
      → (hop_total (hop_records buff off prev (suc i) n) + egress_at buff off i) % 2 ^ 64
        ≡ (link_total (hop_records buff off prev (suc i) n) + egress_at buff off (i + n)) % 2 ^ 64
  unfolding hop_records
  chained zero i = rw (add-zero i)
  chained (suc n) i =
      let shift : i + suc n ≡ suc i + n = omega arith in
      rw (shift, add-one (suc i))
        (omega (
          arith,
          chained n (suc i),
          link_lem i,
          hop_lem (suc i),
          sub64-add (egress_at buff off i) (ingress_at buff off (suc i)),
          sub64-add (egress_at buff off (suc i)) (ingress_at buff off (suc i)),
        ))

  -- The records of a packet of `suc n` hops, and the sink's.
  decomposed :
      (n dst : ℕ)
      → let metas =
          hop_records buff off prev 0 (suc n) ++ (sink_record buff off prev (suc n) dst ∷ []) in
        (sub64 dst (ingress_at buff off 0) + link_total metas) % 2 ^ 64 ≡ hop_total metas % 2 ^ 64
  unfolding hop_records sink_record
  decomposed n dst =
      let last : suc n - 1 ≡ n = omega arith in
      rw
        (
          hop_total-append (hop_records buff off prev (0 + 1) n),
          link_total-append (hop_records buff off prev (0 + 1) n),
          last,
          unsigned64-signed64 (sub64 (egress_at buff off n) dst),
        )
        (omega (
          arith,
          chain,
          first_link,
          hop_lem 0,
          sub64-add dst (ingress_at buff off 0),
          sub64-add (egress_at buff off 0) (ingress_at buff off 0),
          sub64-add (egress_at buff off n) dst,
        ))
    where
      chain :
          (hop_total (hop_records buff off prev 1 n) + egress_at buff off 0) % 2 ^ 64
          ≡ (link_total (hop_records buff off prev 1 n) + egress_at buff off n) % 2 ^ 64
      chain = rw (zero-add n) at (chained n 0)

-- The delay of a report (destination less origin timestamp) and the link delays of its records add
-- up to the hop delays of its records, modulo 2 ^ 64, whenever the packet, of bytes, has between
-- one and nine hops, the buffer room for ten, and the report had no records before.
pub delay_decomposes :
    (hdr : TelemetricHdr) (buff : Buffer) (off n : ℕ) (prev : Timestamps)
    → IsBytes buff
    → off + 24 * max_nodes ≤ pkt_buf_size
    → 0 < n
    → n < max_nodes
    → hdr.node_meta ≡ []
    → (r : TelemetricHdr × Timestamps) × (get_int_node_data hdr buff off n prev ≡ ok r)
      × ((r.0.delay + link_total r.0.node_meta) % 2 ^ 64 ≡ hop_total r.0.node_meta % 2 ^ 64)
unfolding with_nodes
delay_decomposes hdr buff off zero prev bytes inside some few fresh = absurd (omega arith)
delay_decomposes hdr buff off (suc n) prev bytes inside some few fresh = (
  with_nodes hdr buff off (suc n) prev,
  get_int_node_data_lem hdr buff off (suc n) prev bytes inside few,
  rw (fresh) (decomposed buff off prev n hdr.dst_ts),
)
