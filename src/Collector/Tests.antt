-- ===== src/Collector/Tests.antt =====
-- The collector on a packet of two hops.
use int_platform_dpdk.Base.{
  ℕ, length, ◌+◌, ◌*◌, ◌%◌, ◌^◌, ◌<◌, ◌≡◌, ◌++◌, refl, inl, inr, List, [], ◌∷◌, arith, neg_part,
  pos_part,
}
use mathlib.Core.List.{flatten}
use int_platform_dpdk.Text.{codes}
use int_platform_dpdk.Report.{add_report}
use int_platform_dpdk.Report.Lines.{report_lines}
use int_platform_dpdk.Collector.Packets.Exported.{process_packet-add_report}
use int_platform_dpdk.Outcome.{◌>>=◌, ok, fault, div_by_zero}
use int_platform_dpdk.Types.{TelemetricHdr, ret_ok}
use int_platform_dpdk.Packet.{IntInflux}
use int_platform_dpdk.Packet.Fields.{le_at}
use int_platform_dpdk.Samples.{
  sample_options, sample_report, bare_report, packet, packet-IsBytes, bad_packet,
  bad_packet-IsBytes, clock, sample_flows, sample_world,
}
use int_platform_dpdk.Exporter.Tests.{two_rings-IsValid}
use int_platform_dpdk.Collector.Header.{flow_at, get_int_header_data}
use int_platform_dpdk.Collector.Header.Flows.{reordering_lem}
use int_platform_dpdk.Collector.Header.Runs.{
  headers, total, one, ahead, behind, jitter, headers_lem,
}
use int_platform_dpdk.Collector.Nodes.{Timestamps, get_int_node_data}
use int_platform_dpdk.Collector.Nodes.Delay.{link_total, hop_total, delay_decomposes}
use int_platform_dpdk.Collector.Nodes.Shape.{Shape, get_int_node_data-Shape}
use int_platform_dpdk.Collector.Packets.{report_to_influx, World, process_packet}
use int_platform_dpdk.Collector.Packets.Once.{hops}
use int_platform_dpdk.Collector.Packets.Process.{
  report_of, world_of, IsSafe, Processed, process_packet_faults, process_packet-Processed,
}

-- A late packet: number 40 after 41, in network order.
abbrev late : IntInflux
late = record {
  src_addr = 16777226;
  dst_addr = 33554442;
  ingress_port_id = 1;
  egress_port_id = 2;
  meta_len = 12;
  hop_meta_len = 6;
  ndk_tstamp = 5;
  delay = 0;
  seq = 40 * 16777216;
}

small_seq : (flow_at sample_flows 3).seq + 1 < 2 ^ 63
unfolding flow_at
small_seq = omega arith

reordering_lem_example :
    let hdr = (get_int_header_data bare_report late 3 sample_flows).0 in
    hdr.seq_num + neg_part hdr.reordering
    ≡ (flow_at sample_flows 3).seq + 1 + pos_part hdr.reordering
reordering_lem_example = reordering_lem bare_report late 3 sample_flows small_seq

-- Number 43 of the flow, then one of another flow, then the late one, then one without a number.
abbrev some_packets : List (ℕ × IntInflux)
some_packets =
    (3, record late { seq = 43 * 16777216 })
    ∷ (4, record late { seq = 9 * 16777216 })
    ∷ (3, late)
    ∷ (3, record late { seq = 0 })
    ∷ []

small_run : (flow_at sample_flows 3).seq + length some_packets + 2 ^ 32 + 1 < 2 ^ 63
unfolding flow_at
small_run = omega arith

headers_lem_example :
    let (hdrs, flows') = headers bare_report some_packets sample_flows in
    ((flow_at flows' 3).seq + total behind 3 hdrs
      ≡ (flow_at sample_flows 3).seq + total one 3 hdrs + total ahead 3 hdrs)
    × (((flow_at sample_flows 3).prev_dst_ts + total jitter 3 hdrs) % 2 ^ 64
        ≡ (flow_at flows' 3).prev_dst_ts % 2 ^ 64)
headers_lem_example = headers_lem bare_report 3 some_packets sample_flows small_run

delay_decomposes_example :
    (r : TelemetricHdr × Timestamps) × (get_int_node_data bare_report packet 50 2 clock ≡ ok r)
    × ((r.0.delay + link_total r.0.node_meta) % 2 ^ 64 ≡ hop_total r.0.node_meta % 2 ^ 64)
delay_decomposes_example =
    delay_decomposes bare_report packet 50 2 clock packet-IsBytes (omega arith) (omega arith)
      (omega arith) refl

get_int_node_data-Shape_example :
    (r : TelemetricHdr × Timestamps) × (get_int_node_data bare_report packet 50 2 clock ≡ ok r)
    × Shape packet 50 2 clock r
get_int_node_data-Shape_example =
    get_int_node_data-Shape bare_report packet 50 2 clock packet-IsBytes (omega arith) (omega arith)
      refl

packet-IsSafe : IsSafe sample_options packet
unfolding le_at hops
packet-IsSafe = record {
  bytes = packet-IsBytes;
  divides = omega arith;
  few = omega arith;
  rate = inr (omega arith);
}

process_packet-Processed_example :
    (w' : World) × (process_packet sample_report packet sample_options sample_world
      ≡ ok (ret_ok, w'))
    × Processed sample_report packet sample_options sample_world w'
process_packet-Processed_example =
    process_packet-Processed sample_report packet sample_options sample_world packet-IsSafe
      two_rings-IsValid (omega arith)

process_packet_faults_example :
    process_packet sample_report bad_packet sample_options sample_world ≡ fault div_by_zero
unfolding le_at
process_packet_faults_example =
    process_packet_faults sample_report bad_packet sample_options sample_world bad_packet-IsBytes
      (inl refl)

process_packet-add_report_example :
    (process_packet sample_report packet sample_options sample_world ≡ (
      report_to_influx sample_options
        (report_of sample_report packet sample_options sample_world)
        (world_of sample_report packet sample_world)
      >>= λ w'. ok (ret_ok, w')))
    × (add_report (report_of sample_report packet sample_options sample_world) (codes "x")
        ≡ ok (
          hops packet + 2,
          codes "x"
              ++ flatten
                  (report_lines (report_of sample_report packet sample_options sample_world)),
        ))
process_packet-add_report_example =
    process_packet-add_report sample_report packet sample_options sample_world (codes "x")
      packet-IsSafe

hops_test : hops packet ≡ 2
unfolding hops le_at
hops_test = refl
