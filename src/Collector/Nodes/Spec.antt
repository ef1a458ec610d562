-- ===== src/Collector/Nodes/Spec.antt =====
-- What the hop records are, read straight off the packet, and that the loop computes them.
use int_platform_dpdk.Base.{
  ℕ, zero, suc, ◌+◌, ◌-◌, ◌*◌, ◌≤◌, ◌<◌, ◌^◌, ◌≡◌, ap, ap₂, List, [], ◌∷◌, ◌++◌, append_assoc,
  append-nil, arith, ltb, ◌==◌, if◌then◌else◌, lt→ltb, pos, update, ℕ_discrete,
}
use mathlib.Core.Path.{fun_ext}
use native.Mathlib.Numerals.{add-one}
use int_platform_dpdk.Outcome.{ok}
use int_platform_dpdk.Words.{sub64, signed64, unsigned64, unsigned64-signed64}
use int_platform_dpdk.Words.Endian.{ntoh64, ntoh64-lt}
use int_platform_dpdk.Types.{TelemetricMeta}
use int_platform_dpdk.Packet.{Buffer, pkt_buf_size}
use int_platform_dpdk.Packet.Fields.{IsBytes, be64_at, le_at, load_int_meta-ok, ntoh64-le_at}
use int_platform_dpdk.Collector.Nodes.{
  max_nodes, Timestamps, load_timestamp, store_timestamp, NodeState, node_round, node_loop,
}

-- The timestamps of hop `i` of a packet whose hops begin at `off`.
unfoldable pub ingress_at : Buffer → ℕ → ℕ → ℕ
ingress_at buff off i = be64_at buff (off + 24 * i + 8)

unfoldable pub egress_at : Buffer → ℕ → ℕ → ℕ
egress_at buff off i = be64_at buff (off + 24 * i + 16)

-- The record of hop `i`: its delay is from its ingress to its egress, its link delay from the egress
-- of the hop before, and its jitter from the ingress timestamp of the packet before.
unfoldable pub hop_record : Buffer → ℕ → Timestamps → ℕ → TelemetricMeta
hop_record buff off prev i = record {
  link_delay =
      if i == 0
      then pos 0
      else signed64 (sub64 (egress_at buff off (i - 1)) (ingress_at buff off i));
  hop_delay = sub64 (egress_at buff off i) (ingress_at buff off i);
  hop_jitter = sub64 (ingress_at buff off i) (prev i);
  hop_index = i;
  hop_timestamp = egress_at buff off i;
}

-- The record of the sink, behind `n` hops.
unfoldable pub sink_record : Buffer → ℕ → Timestamps → ℕ → ℕ → TelemetricMeta
sink_record buff off prev n dst_ts = record {
  link_delay = signed64 (sub64 (egress_at buff off (n - 1)) dst_ts);
  hop_delay = 0;
  hop_jitter = sub64 dst_ts (prev n);
  hop_index = n;
  hop_timestamp = dst_ts;
}

-- The records of the hops from `i` on.
unfoldable pub hop_records : Buffer → ℕ → Timestamps → ℕ → ℕ → List TelemetricMeta
hop_records buff off prev i zero = []
hop_records buff off prev i (suc n) =
    hop_record buff off prev i ∷ hop_records buff off prev (i + 1) n

-- The array after the first `n` hops.
unfoldable pub stamped : Buffer → ℕ → Timestamps → ℕ → Timestamps
stamped buff off prev n j = if ltb j n then ingress_at buff off j else prev j

pub load_timestamp-ok :
    (prev : Timestamps) (i : ℕ) → i < max_nodes → load_timestamp prev i ≡ ok (prev i)
unfolding load_timestamp
load_timestamp-ok prev i h = rw (lt→ltb i max_nodes h)

pub store_timestamp-ok :
    (prev : Timestamps) (i v : ℕ) → i < max_nodes → store_timestamp prev i v ≡ ok (update prev i v)
unfolding store_timestamp
store_timestamp-ok prev i v h = rw (lt→ltb i max_nodes h)

-- The state of the loop before round `i`.
abbrev pub reached : Buffer → ℕ → Timestamps → List TelemetricMeta → ℕ → NodeState
reached buff off prev before i = record {
  node_meta = before;
  tmp_eg_timestamp = signed64 (egress_at buff off (i - 1));
  prev_timestamps = stamped buff off prev i;
}

module _ (buff : Buffer) (off : ℕ) (bytes : IsBytes buff) (prev : Timestamps) where
  pub ingress_lem : (i : ℕ) → ntoh64 (le_at 8 buff (off + 24 * i + 8)) ≡ ingress_at buff off i
  unfolding ingress_at
  ingress_lem i = ntoh64-le_at buff (off + 24 * i + 8) bytes

  pub egress_lem : (i : ℕ) → ntoh64 (le_at 8 buff (off + 24 * i + 16)) ≡ egress_at buff off i
  unfolding egress_at
  egress_lem i = ntoh64-le_at buff (off + 24 * i + 16) bytes

  pub egress_at-lt : (i : ℕ) → egress_at buff off i < 2 ^ 64
  egress_at-lt i = rw (← egress_lem i) (ntoh64-lt _)

  pub previous_egress :
      (i : ℕ) → unsigned64 (signed64 (egress_at buff off i)) ≡ egress_at buff off i
  previous_egress i = omega (arith, unsigned64-signed64 (egress_at buff off i), egress_at-lt i)

  pub stamped_self : (i : ℕ) → stamped buff off prev i i ≡ prev i
  unfolding stamped
  stamped_self i = ground arith

  stamped_next :
      (i : ℕ)
      → update (stamped buff off prev i) i (ingress_at buff off i) ≡ stamped buff off prev (suc i)
  unfolding stamped
  stamped_next i = fun_ext (λ j. pointwise j)
    where
      pointwise :
          (j : ℕ)
          → update (stamped buff off prev i) i (ingress_at buff off i) j
            ≡ stamped buff off prev (suc i) j
      pointwise j = elim (ℕ_discrete i j) [ yes e ↦ rw e (ground arith) | no ne ↦ ground arith ]

  kept_egress :
      (i : ℕ)
      → (if i == 0 then signed64 (egress_at buff off (i - 1)) else signed64 (egress_at buff off i))
        ≡ signed64 (egress_at buff off (suc i - 1))
  kept_egress i = ground arith

  node_round-ok :
      (i : ℕ) (before : List TelemetricMeta)
      → off + 24 * suc i ≤ pkt_buf_size
      → i < max_nodes
      → node_round buff off i (reached buff off prev before i)
        ≡ ok (reached buff off prev (before ++ (hop_record buff off prev i ∷ [])) (suc i))
  unfolding node_round hop_record
  node_round-ok i before inside few = rw (load_int_meta-ok buff (off + 24 * i) (omega arith)) (
      rw (
        ingress_lem i,
        egress_lem i,
        load_timestamp-ok (stamped buff off prev i) i few,
        store_timestamp-ok (stamped buff off prev i) i (ingress_at buff off i) few,
        previous_egress (i - 1),
        stamped_next i,
        stamped_self i,
        kept_egress i,
      ))

  -- The `rounds` rounds from round `i` on push the records of those hops.
  pub node_loop-ok :
      (rounds i : ℕ) (before : List TelemetricMeta)
      → off + 24 * (i + rounds) ≤ pkt_buf_size
      → i + rounds ≤ max_nodes
      → node_loop rounds buff off i (reached buff off prev before i)
        ≡ ok (reached buff off prev (before ++ hop_records buff off prev i rounds) (i + rounds))
  unfolding node_loop hop_records
  node_loop-ok zero i before inside few =
      rw (append-nil) (ap (λ k. ok (reached buff off prev before k)) (omega arith))
  node_loop-ok (suc rounds) i before inside few =
      rw (node_round-ok i before (omega arith) (omega arith), ← add-one i)
        (rw
          (node_loop-ok rounds (i + 1) (before ++ (hop_record buff off prev i ∷ [])) (omega arith)
            (omega arith))
          (ap₂ (λ l k. ok (reached buff off prev l k))
            (append_assoc before (hop_record buff off prev i ∷ [])
              (hop_records buff off prev (i + 1) rounds))
            (omega arith)))
