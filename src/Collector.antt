-- ===== src/Collector.antt =====
-- int_t4p4s_dpdk/p4int_influxdb/p4int.cc: what the sink node does with one received packet.
-- Header and Nodes take a packet apart; their children prove what they compute.
pub mod Header
pub mod Nodes
pub mod Packets
mod Tests
