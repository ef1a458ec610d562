-- ===== src/Collector/Nodes.antt =====
-- get_int_node_data of p4int.cc: one record for each hop on the wire and one for the sink.
pub mod Spec
pub mod Result
pub mod Delay
pub mod Shape
use int_platform_dpdk.Base.{
  ℕ, zero, suc, ◌+◌, ◌*◌, List, [], ◌∷◌, ◌++◌, ltb, ◌==◌, if◌then◌else◌, ℤ, pos, update,
}
use int_platform_dpdk.Outcome.{Outcome, ok, fault, out_of_bounds, ◌>>=◌}
use int_platform_dpdk.Words.{sub64, signed64, unsigned64}
use int_platform_dpdk.Words.Endian.{ntoh64}
use int_platform_dpdk.Types.{TelemetricMeta, TelemetricHdr}
use int_platform_dpdk.Packet.{Buffer, int_meta_size, load_int_meta}

abbrev pub max_nodes : ℕ
max_nodes = 10

-- `uint64_t prev_timestamps[MAX_NODES]`, by index.
abbrev pub Timestamps : Type 0
Timestamps = ℕ → ℕ

unfoldable pub load_timestamp : Timestamps → ℕ → Outcome ℕ
load_timestamp prev i = if ltb i max_nodes then ok (prev i) else fault out_of_bounds

unfoldable pub store_timestamp : Timestamps → ℕ → ℕ → Outcome Timestamps
store_timestamp prev i v = if ltb i max_nodes then ok (update prev i v) else fault out_of_bounds

-- The variables of the loop: the records pushed so far, `tmp_eg_timestamp` and the global array.
pub record NodeState : Type 0 where
  pub node_meta : List TelemetricMeta
  pub tmp_eg_timestamp : ℤ
  pub prev_timestamps : Timestamps

-- One round, at the structure that `int_meta_hdr` has come to.
unfoldable pub node_round : Buffer → ℕ → ℕ → NodeState → Outcome NodeState
unfolding load_timestamp store_timestamp
node_round buff off i s = do
  int_meta_hdr ← load_int_meta buff (off + int_meta_size * i)
  let ingress = ntoh64 int_meta_hdr.ingress_tstamp
  let egress = ntoh64 int_meta_hdr.egress_tstamp
  let old = s.tmp_eg_timestamp
  prev ← load_timestamp s.prev_timestamps i
  stored ← store_timestamp s.prev_timestamps i ingress
  ok (record {
    node_meta =
        s.node_meta
        ++ (record {
          link_delay = if i == 0 then pos 0 else signed64 (sub64 (unsigned64 old) ingress);
          hop_delay = sub64 egress ingress;
          hop_jitter = sub64 ingress prev;
          hop_index = i;
          hop_timestamp = egress;
        }
            ∷ []);
    tmp_eg_timestamp = if i == 0 then old else signed64 egress;
    prev_timestamps = stored;
  })

-- `for (uint8_t i = 0; i < meta_cnt; ++i)`, with the rounds that are left.
unfoldable pub node_loop : ℕ → Buffer → ℕ → ℕ → NodeState → Outcome NodeState
node_loop zero buff off i s = ok s
node_loop (suc rounds) buff off i s = node_round buff off i s >>= node_loop rounds buff off (i + 1)

-- `off` is the address `int_meta_hdr` in the buffer.
unfoldable pub get_int_node_data :
    TelemetricHdr → Buffer → ℕ → ℕ → Timestamps → Outcome (TelemetricHdr × Timestamps)
get_int_node_data tmp_hdr buff off meta_cnt prev_timestamps = do
  first ← load_int_meta buff off
  let orig_ts = ntoh64 first.ingress_tstamp
  let start : NodeState = record {
    node_meta = tmp_hdr.node_meta;
    tmp_eg_timestamp = signed64 (ntoh64 first.egress_tstamp);
    prev_timestamps = prev_timestamps;
  }
  s ← node_loop meta_cnt buff off 0 start
  prev ← load_timestamp s.prev_timestamps meta_cnt
  stored ← store_timestamp s.prev_timestamps meta_cnt tmp_hdr.dst_ts
  ok (
    record tmp_hdr {
      orig_ts = orig_ts;
      delay = sub64 tmp_hdr.dst_ts orig_ts;
      node_meta =
          s.node_meta
          ++ (record {
            link_delay = signed64 (sub64 (unsigned64 s.tmp_eg_timestamp) tmp_hdr.dst_ts);
            hop_delay = 0;
            hop_jitter = sub64 tmp_hdr.dst_ts prev;
            hop_index = meta_cnt;
            hop_timestamp = tmp_hdr.dst_ts;
          }
              ∷ []);
    },
    stored,
  )
