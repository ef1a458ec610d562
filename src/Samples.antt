-- ===== src/Samples.antt =====
-- Concrete inputs for the tests: options, a report, packets, the globals and exporters.
pub mod Safe
use int_platform_dpdk.Base.{ℕ, ◌%◌, [], ◌∷◌, false, arith, ◌==◌, if◌then◌else◌, pos}
use int_platform_dpdk.Text.{codes}
use int_platform_dpdk.Types.{Options, TelemetricMeta, TelemetricHdr}
use int_platform_dpdk.Packet.{Buffer}
use int_platform_dpdk.Packet.Fields.{IsBytes}
use int_platform_dpdk.Exporter.{IntExporter, Buffered}
use int_platform_dpdk.Collector.Header.{FlowMap}
use int_platform_dpdk.Collector.Nodes.{Timestamps}
use int_platform_dpdk.Collector.Packets.{World}

abbrev pub sample_options : Options
sample_options = record {
  dev_id = codes "eth0";
  host = codes "10.0.0.1";
  host_valid = 1;
  port = 8086;
  protocol = codes "udp";
  username = [];
  password = [];
  batch = 4;
  log = 0;
  log_file = [];
  verbose = 1;
  tstmp = 1;
  p4cfg = 0;
  smpl_rate = 1;
  raw_buffer = 2;
  ip_flt = [];
}

abbrev pub sample_hop : TelemetricMeta
sample_hop = record {
  link_delay = pos 0;
  hop_delay = 5;
  hop_jitter = 100;
  hop_index = 0;
  hop_timestamp = 105;
}

-- Two records: the flow's and that of one hop.
abbrev pub sample_report : TelemetricHdr
sample_report = record {
  src_ip = codes "10.0.0.1";
  dst_ip = codes "10.0.0.2";
  src_port = 1000;
  dst_port = 2000;
  orig_ts = 100;
  dst_ts = 110;
  protocol = 6;
  seq_num = 7;
  delay = 10;
  sink_jitter = 3;
  reordering = pos 0;
  node_meta = sample_hop ∷ [];
}

abbrev pub bare_report : TelemetricHdr
bare_report = record sample_report { node_meta = [] }

-- Two hops of six words each.
abbrev pub packet : Buffer
packet i = if i == 26 then 12 else if i == 27 then 6 else i % 256

pub packet-IsBytes : IsBytes packet
packet-IsBytes i = ground arith

-- Hops of no length.
abbrev pub bad_packet : Buffer
bad_packet i = if i == 27 then 0 else packet i

pub bad_packet-IsBytes : IsBytes bad_packet
bad_packet-IsBytes i = ground arith

abbrev pub clock : Timestamps
clock i = i

abbrev pub sample_flows : FlowMap
sample_flows = (3, record { seq = 41; prev_dst_ts = 90 }) ∷ []

abbrev pub ring_from : ℕ → ℕ → Buffered
ring_from head tail = record { ring = λ i. sample_report; head = head; tail = tail }

-- The second ring holds one report; the first one is empty.
abbrev pub two_rings : IntExporter
two_rings = record { th_num = 2; ring_buffs = ring_from 0 0 ∷ ring_from 8 7 ∷ []; rr_index = 0 }

abbrev pub sample_world : World
sample_world = record {
  prev_timestamps = clock;
  pkt_cnt = 0;
  pkt_drop = 0;
  stop = false;
  flow_map = sample_flows;
  exporter = two_rings;
  printed = [];
}
