-- ===== src/Collector/Packets/Process.antt =====
-- process_packet from the received bytes to the report: when it ends without a fault, and what it
-- changes.
use int_platform_dpdk.Base.{
  ◌+◌, ◌^◌, ◌≤◌, ◌<◌, ◌≡◌, ◌≢◌, refl, ◌∙◌, ◌⊎◌, inl, inr, [], true, false, arith, leb, ◌==◌,
  if◌then◌else◌, dec_lt,
}
use int_platform_dpdk.Outcome.{ok, fault, div_by_zero, out_of_bounds, ◌>>=◌}
use int_platform_dpdk.Words.{u8}
use int_platform_dpdk.Types.{Options, TelemetricHdr, ret_ok}
use int_platform_dpdk.Packet.{Buffer}
use int_platform_dpdk.Packet.Fields.{IsBytes, le_at, load_le-ok, load_int_influx-ok, int_influx_at}
use int_platform_dpdk.Exporter.State
use int_platform_dpdk.Exporter.Queued.{queued}
use int_platform_dpdk.Collector.Header.{FlowMap, get_int_header_data}
use int_platform_dpdk.Collector.Nodes.{max_nodes, get_int_node_data}
use int_platform_dpdk.Collector.Nodes.Result.{
  with_nodes, get_int_node_data_lem, get_int_node_data-fault,
}
use int_platform_dpdk.Collector.Packets.{
  World, checked_div, checked_mod, export_report, report_to_influx, process_packet, cut_48,
}
use int_platform_dpdk.Collector.Packets.Once.{
  hops, sampled, HasRate, checked_div-ok, report_to_influx-Reported,
}

-- No part of the uninitialised `tmpHdr` reaches the report or the globals: the outcome of
-- process_packet, faults included, is the same whatever the stack holds.
pub process_packet-stack :
    (stack stack' : TelemetricHdr) (buff : Buffer) (opt : Options) (w : World)
    → process_packet stack buff opt w ≡ process_packet stack' buff opt w
unfolding process_packet get_int_header_data get_int_node_data
process_packet-stack stack stack' buff opt w = refl

-- A packet that the program can take apart, under options that it can divide by.
pub record IsSafe (opt : Options) (buff : Buffer) : Type 0 where
  pub bytes : IsBytes buff
  pub divides : 0 < le_at 1 buff 27
  pub few : hops buff < max_nodes
  pub rate : HasRate opt

-- What the header of the packet makes of the report and of the flow table.
unfoldable pub header_of : TelemetricHdr → Buffer → FlowMap → TelemetricHdr × FlowMap
header_of stack buff flows =
    get_int_header_data (record stack { node_meta = [] }) (int_influx_at buff 14) (le_at 8 buff 14)
      flows

-- The report with its hops, its two timestamps cut to 48 bits if the option says so.
unfoldable pub report_of : TelemetricHdr → Buffer → Options → World → TelemetricHdr
report_of stack buff opt w =
    let hdr =
      (with_nodes (header_of stack buff w.flow_map).0 buff 50 (hops buff) w.prev_timestamps).0 in
    if opt.tstmp == 1
    then record hdr { orig_ts = cut_48 hdr.orig_ts; dst_ts = cut_48 hdr.dst_ts }
    else hdr

-- The globals when the report is handed on.
unfoldable pub world_of : TelemetricHdr → Buffer → World → World
world_of stack buff w = record w {
  flow_map = (header_of stack buff w.flow_map).1;
  prev_timestamps =
      (with_nodes (header_of stack buff w.flow_map).0 buff 50 (hops buff) w.prev_timestamps).1;
}

module _ (stack : TelemetricHdr) (buff : Buffer) (opt : Options) (w : World)
    (bytes : IsBytes buff) where
  pub taken_apart :
      0 < le_at 1 buff 27
      → hops buff < max_nodes
      → process_packet stack buff opt w ≡ (
          report_to_influx opt (report_of stack buff opt w) (world_of stack buff w) >>= λ w'.
          ok (ret_ok, w'))
  unfolding process_packet report_of world_of header_of hops
  taken_apart divides few = rw (load_int_influx-ok buff 14 (omega arith)) (
      rw (load_le-ok 8 buff 14 (omega arith)) (
        rw (checked_div-ok (le_at 1 buff 26) (le_at 1 buff 27) divides) (
          rw (
            get_int_node_data_lem _ buff 50 (hops buff) w.prev_timestamps bytes (omega arith)
              few))))

  unpacked : process_packet stack buff opt w ≡ (
      checked_div (le_at 1 buff 26) (le_at 1 buff 27) >>= λ quotient.
      get_int_node_data (header_of stack buff w.flow_map).0 buff 50 (u8 quotient) w.prev_timestamps
      >>= λ nodes.
          report_to_influx opt
            (let hdr = nodes.0 in
              if opt.tstmp == 1
              then record hdr { orig_ts = cut_48 hdr.orig_ts; dst_ts = cut_48 hdr.dst_ts }
              else hdr)
            (record w { flow_map = (header_of stack buff w.flow_map).1; prev_timestamps = nodes.1 })
          >>= λ w'. ok (ret_ok, w'))
  unfolding process_packet header_of
  unpacked = rw (load_int_influx-ok buff 14 (omega arith)) (rw (load_le-ok 8 buff 14 (omega arith)))

  no_hop_length : le_at 1 buff 27 ≡ 0 → process_packet stack buff opt w ≡ fault div_by_zero
  unfolding checked_div
  no_hop_length e = unpacked ∙ (rw e)

  too_many_hops :
      0 < le_at 1 buff 27
      → max_nodes ≤ hops buff
      → process_packet stack buff opt w ≡ fault out_of_bounds
  unfolding hops
  too_many_hops divides many =
      unpacked
      ∙ rw (checked_div-ok (le_at 1 buff 26) (le_at 1 buff 27) divides) (
          rw (
            get_int_node_data-fault (header_of stack buff w.flow_map).0 buff 50 (hops buff)
              w.prev_timestamps bytes (omega arith) many))

  no_rate :
      0 < le_at 1 buff 27
      → hops buff < max_nodes
      → opt.host_valid ≢ 0
      → opt.smpl_rate ≡ 0
      → process_packet stack buff opt w ≡ fault div_by_zero
  unfolding report_to_influx export_report checked_mod
  no_rate divides few host none =
      let on : (opt.host_valid == 0) ≡ false = ground arith in
      let zero_rate : (opt.smpl_rate == 0) ≡ true = ground arith in
      taken_apart divides few ∙ rw (on) (rw (zero_rate))

  -- Over a buffer of bytes: a packet that announces hops of no length, or too many of them, or
  -- comes while the sampling rate is 0 and a host is given: process_packet divides by zero, or goes
  -- past the array of timestamps.
  pub process_packet_faults :
      (le_at 1 buff 27 ≡ 0) ⊎ (max_nodes ≤ hops buff) ⊎ ((opt.host_valid ≢ 0) × (opt.smpl_rate ≡ 0))
      → process_packet stack buff opt w
        ≡ fault (
            if le_at 1 buff 27 == 0
            then div_by_zero
            else if leb max_nodes (hops buff)
            then out_of_bounds
            else div_by_zero)
  process_packet_faults why = elim (dec_lt 0 (le_at 1 buff 27)) [
    | no h ↦ let e : le_at 1 buff 27 ≡ 0 = omega arith in rw (e) (no_hop_length e)
    | yes divides ↦
        let nonzero : (le_at 1 buff 27 == 0) ≡ false = ground arith in
        rw (nonzero) (elim (dec_lt (hops buff) max_nodes) [
          | no h ↦
              let many : leb max_nodes (hops buff) ≡ true = ground arith in
              rw (many) (too_many_hops divides (omega arith))
          | yes few ↦
              let short : leb max_nodes (hops buff) ≡ false = ground arith in
              rw (short) (elim why [
                | inl e ↦ absurd (omega arith)
                | inr (inl many) ↦ absurd (omega arith)
                | inr (inr (host, none)) ↦ no_rate divides few host none
              ])
        ])
  ]

-- What one processed packet leaves: the exporter's and counters' account of its report, and the
-- memory of its flow and of the hops, read off the packet.
pub record Processed (stack : TelemetricHdr) (buff : Buffer) (opt : Options) (w w' : World)
    : Type 0 where
  pub valid : State.IsValid w'.exporter
  pub pkt_cnt : w'.pkt_cnt ≡ w.pkt_cnt
  pub stop : w'.stop ≡ w.stop
  pub counted :
      queued w'.exporter + w'.pkt_drop
      ≡ queued w.exporter + w.pkt_drop + (if sampled opt w then 1 else 0)
  pub few : w'.pkt_drop ≤ w.pkt_drop + 1
  pub flow_map : w'.flow_map ≡ (header_of stack buff w.flow_map).1
  pub prev_timestamps :
      w'.prev_timestamps
      ≡ (with_nodes (header_of stack buff w.flow_map).0 buff 50 (hops buff) w.prev_timestamps).1

-- A packet of bytes whose hop length is not 0, with fewer than ten hops, under options that give a
-- sampling rate if they give a host, is processed without a fault on a valid exporter, whatever else
-- it carries, and RET_OK is returned, as long as the count of dropped reports does not wrap around. The flow table and the array of timestamps are what the packet makes of them;
-- and the reports in the rings and those counted as dropped are together one more if the packet was
-- due for the host, and as many as before otherwise.
pub process_packet-Processed :
    (stack : TelemetricHdr) (buff : Buffer) (opt : Options) (w : World)
    → IsSafe opt buff
    → State.IsValid w.exporter
    → w.pkt_drop + 1 < 2 ^ 64
    → (w' : World) × (process_packet stack buff opt w ≡ ok (ret_ok, w'))
      × Processed stack buff opt w w'
unfolding world_of sampled
process_packet-Processed stack buff opt w safe v small =
    let (w', runs, r) =
      report_to_influx-Reported opt (report_of stack buff opt w) (world_of stack buff w) v safe.rate
        small in
    (
      w',
      taken_apart stack buff opt w safe.bytes safe.divides safe.few ∙ rw runs,
      record {
        valid = r.valid;
        pkt_cnt = r.pkt_cnt;
        stop = r.stop;
        counted = r.counted;
        few = r.few;
        flow_map = r.flow_map;
        prev_timestamps = r.prev_timestamps;
      },
    )
