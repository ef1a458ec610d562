-- ===== src/Types.antt =====
-- int_t4p4s_dpdk/p4int_influxdb/p4int.h: the constants and the structures that the parts share.
-- A `char` buffer is the text in it, a number its value.
use int_platform_dpdk.Base.{ℕ, List, ℤ}

abbrev pub ret_ok : ℕ
ret_ok = 0

abbrev pub ret_err : ℕ
ret_err = 1

-- `options_t`. `ip_flt` holds arrays of six bytes.
pub record Options : Type 0 where
  pub dev_id : List ℕ
  pub host : List ℕ
  pub host_valid : ℕ
  pub port : ℕ
  pub protocol : List ℕ
  pub username : List ℕ
  pub password : List ℕ
  pub batch : ℕ
  pub log : ℕ
  pub log_file : List ℕ
  pub verbose : ℕ
  pub tstmp : ℕ
  pub p4cfg : ℕ
  pub smpl_rate : ℕ
  pub raw_buffer : ℕ
  pub ip_flt : List (List ℕ)

-- `struct telemetric_meta`: what one hop adds.
pub record TelemetricMeta : Type 0 where
  pub link_delay : ℤ
  pub hop_delay : ℕ
  pub hop_jitter : ℕ
  pub hop_index : ℕ
  pub hop_timestamp : ℕ

-- `telemetric_hdr_t`: one report.
pub record TelemetricHdr : Type 0 where
  pub src_ip : List ℕ
  pub dst_ip : List ℕ
  pub src_port : ℕ
  pub dst_port : ℕ
  pub orig_ts : ℕ
  pub dst_ts : ℕ
  pub protocol : ℕ
  pub seq_num : ℕ
  pub delay : ℕ
  pub sink_jitter : ℕ
  pub reordering : ℤ
  pub node_meta : List TelemetricMeta

-- `struct meta_data`: what is remembered of a flow.
pub record MetaData : Type 0 where
  pub seq : ℕ
  pub prev_dst_ts : ℕ

-- The initialisers of `meta_data`.
abbrev pub no_meta : MetaData
no_meta = record { seq = 0; prev_dst_ts = 0 }
