-- ===== src/Collector/Nodes/Result.antt =====
-- What get_int_node_data returns: on a packet of fewer than `max_nodes` hops, the records of its hops
-- and the sink's; on a longer one it leaves the array of timestamps.
use mathlib.Core.Path.{fun_ext}
use native.Mathlib.Nat.{add-zero, zero-add}
use int_platform_dpdk.Base.{
  ℕ, zero, suc, ◌+◌, ◌-◌, ◌*◌, ◌≤◌, ◌<◌, ◌≡◌, ap, ◌∙◌, [], ◌∷◌, ◌++◌, append_assoc, arith, update,
}
use int_platform_dpdk.Outcome.{Outcome, ok, fault, out_of_bounds, ◌>>=◌, >>=_assoc}
use int_platform_dpdk.Words.{sub64, signed64}
use int_platform_dpdk.Words.Endian.{ntoh64}
use int_platform_dpdk.Types.{TelemetricHdr}
use int_platform_dpdk.Packet.{Buffer, pkt_buf_size}
use int_platform_dpdk.Packet.Fields.{IsBytes, le_at, load_int_meta-ok}
use int_platform_dpdk.Collector.Nodes.{
  max_nodes, Timestamps, load_timestamp, NodeState, node_round, node_loop, get_int_node_data,
}
use int_platform_dpdk.Collector.Nodes.Spec.{
  ingress_at, egress_at, hop_records, sink_record, stamped, reached, load_timestamp-ok,
  store_timestamp-ok, ingress_lem, egress_lem, previous_egress, stamped_self, node_loop-ok,
}

-- The report with its hops, and the array with every hop's ingress and the sink's timestamp.
unfoldable pub with_nodes : TelemetricHdr → Buffer → ℕ → ℕ → Timestamps → TelemetricHdr × Timestamps
with_nodes hdr buff off n prev = (
  record hdr {
    orig_ts = ingress_at buff off 0;
    delay = sub64 hdr.dst_ts (ingress_at buff off 0);
    node_meta =
        hdr.node_meta
        ++ (hop_records buff off prev 0 n ++ (sink_record buff off prev n hdr.dst_ts ∷ []));
  },
  update (stamped buff off prev n) n hdr.dst_ts,
)

-- The rounds of a loop, taken in two parts.
node_loop-add :
    (buff : Buffer) (off a b i : ℕ) (s : NodeState)
    → node_loop (a + b) buff off i s ≡ (node_loop a buff off i s >>= node_loop b buff off (i + a))
unfolding node_loop
node_loop-add buff off zero b i s = rw (zero-add b, add-zero i)
node_loop-add buff off (suc a) b i s =
    let more : suc a + b ≡ suc (a + b) = omega arith in
    let further : i + 1 + a ≡ i + suc a = omega arith in
    rw (more, >>=_assoc (node_round buff off i s) (node_loop a buff off (i + 1)))
      (ap (λ f. node_round buff off i s >>= f)
        (fun_ext λ x.
          node_loop-add buff off a b (i + 1) x
          ∙ ap (λ k. node_loop a buff off (i + 1) x >>= node_loop b buff off k) further))

module _ (hdr : TelemetricHdr) (buff : Buffer) (off n : ℕ) (prev : Timestamps)
    (bytes : IsBytes buff) where
  first_ingress : ingress_at buff off 0 ≡ ntoh64 (le_at 8 buff (off + 8))
  first_ingress = rw (← ingress_lem buff off bytes prev 0) (rw add-zero)

  first_egress : egress_at buff off 0 ≡ ntoh64 (le_at 8 buff (off + 16))
  first_egress = rw (← egress_lem buff off bytes prev 0) (rw add-zero)

  unstamped : stamped buff off prev 0 ≡ prev
  unfolding stamped
  unstamped = fun_ext (λ j. ground arith)

  first_state :
      node_loop n buff off 0 (record {
        node_meta = hdr.node_meta;
        tmp_eg_timestamp = signed64 (ntoh64 (le_at 8 buff (off + 16)));
        prev_timestamps = prev;
      })
      ≡ node_loop n buff off 0 (reached buff off prev hdr.node_meta 0)
  first_state = rw (unstamped, first_egress)

  -- Fewer than `max_nodes` hops.
  pub get_int_node_data_lem :
      off + 24 * max_nodes ≤ pkt_buf_size
      → n < max_nodes
      → get_int_node_data hdr buff off n prev ≡ ok (with_nodes hdr buff off n prev)
  unfolding get_int_node_data with_nodes sink_record
  get_int_node_data_lem inside few = rw (load_int_meta-ok buff off (omega arith)) (
      rw (first_state) (
        rw (node_loop-ok buff off bytes prev n 0 hdr.node_meta (omega arith) (omega arith)) (
          rw (
            zero-add n,
            ← first_ingress,
            load_timestamp-ok (stamped buff off prev n) n few,
            store_timestamp-ok (stamped buff off prev n) n hdr.dst_ts few,
            previous_egress buff off bytes prev (n - 1),
            stamped_self buff off bytes prev n,
            append_assoc hdr.node_meta (hop_records buff off prev 0 n)
                (sink_record buff off prev n hdr.dst_ts ∷ []),
          ))))

  -- The round of hop `max_nodes` reads past the array of timestamps.
  node_round-fault :
      (s : NodeState)
      → off + 24 * suc max_nodes ≤ pkt_buf_size
      → node_round buff off max_nodes s ≡ fault out_of_bounds
  unfolding node_round load_timestamp
  node_round-fault s inside = rw (load_int_meta-ok buff (off + 24 * max_nodes) (omega arith))

  load_timestamp-fault : (p : Timestamps) → max_nodes ≤ n → load_timestamp p n ≡ fault out_of_bounds
  unfolding load_timestamp
  load_timestamp-fault p many = ground arith

  -- What follows `max_nodes` rounds, whether another round or the end of the loop.
  past :
      {B : Type 0} (rounds : ℕ) (s : NodeState)
      → off + 24 * suc max_nodes ≤ pkt_buf_size
      → max_nodes + rounds ≡ n
      → (k : NodeState → ℕ → Outcome B)
      → (node_loop rounds buff off max_nodes s >>= λ r. load_timestamp r.prev_timestamps n >>= k r)
        ≡ fault out_of_bounds
  unfolding node_loop
  past zero s inside e k = rw (load_timestamp-fault s.prev_timestamps (omega arith))
  past (suc rounds) s inside e k = rw (node_round-fault s inside)

  -- `max_nodes` hops or more.
  pub get_int_node_data-fault :
      off + 24 * suc max_nodes ≤ pkt_buf_size
      → max_nodes ≤ n
      → get_int_node_data hdr buff off n prev ≡ fault out_of_bounds
  unfolding get_int_node_data
  get_int_node_data-fault inside many = rw (load_int_meta-ok buff off (omega arith)) (
      rw (first_state) (
        rw (split) (
          rw
            (node_loop-ok buff off bytes prev max_nodes 0 hdr.node_meta (omega arith) (omega arith))
            (past (n - max_nodes) _ inside (omega arith) _))))
    where
      split : node_loop n buff off 0 (reached buff off prev hdr.node_meta 0) ≡ (
          node_loop max_nodes buff off 0 (reached buff off prev hdr.node_meta 0)
          >>= node_loop (n - max_nodes) buff off (0 + max_nodes))
      split =
          let e : n ≡ max_nodes + (n - max_nodes) = omega arith in
          ap (λ k. node_loop k buff off 0 (reached buff off prev hdr.node_meta 0)) e
          ∙ node_loop-add buff off max_nodes (n - max_nodes) 0 _
