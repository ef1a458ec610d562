-- ===== src/Collector/Header/Tests.antt =====
-- Packets of two flows, mixed in two ways.
use int_platform_dpdk.Base.{ℕ, ◌≡◌, List, [], ◌∷◌, arith}
use int_platform_dpdk.Packet.{IntInflux}
use int_platform_dpdk.Samples.{bare_report, sample_flows}
use int_platform_dpdk.Collector.Header.AnyOrder.{
  flows_of, of_flow, memory_after, reports_for, mixed_lem,
}

-- A packet with the given number, in network order.
abbrev numbered : ℕ → IntInflux
numbered seq = record {
  src_addr = 16777226;
  dst_addr = 33554442;
  ingress_port_id = 1;
  egress_port_id = 2;
  meta_len = 12;
  hop_meta_len = 6;
  ndk_tstamp = 5;
  delay = 0;
  seq = seq;
}

abbrev in_turn : List (ℕ × IntInflux)
in_turn = (3, numbered 7) ∷ (4, numbered 8) ∷ (3, numbered 9) ∷ []

abbrev other_first : List (ℕ × IntInflux)
other_first = (4, numbered 8) ∷ (3, numbered 7) ∷ (3, numbered 9) ∷ []

same_packets : (key : ℕ) → of_flow key in_turn ≡ of_flow key other_first
unfolding of_flow
same_packets key = ground arith

mixed_lem_example :
    ((key : ℕ)
      → reports_for bare_report key in_turn (flows_of sample_flows)
        ≡ reports_for bare_report key other_first (flows_of sample_flows))
    × (memory_after bare_report in_turn (flows_of sample_flows)
        ≡ memory_after bare_report other_first (flows_of sample_flows))
mixed_lem_example = mixed_lem bare_report in_turn other_first (flows_of sample_flows) same_packets
