-- ===== src/Packet.antt =====
-- int_t4p4s_dpdk/p4int_influxdb/p4int.cc: the receive buffer and the packed structures that the
-- collector lays over it. Every read is checked against the size of the buffer.
pub mod Fields
use int_platform_dpdk.Base.{ℕ, zero, suc, ◌+◌, ◌*◌, ltb, if◌then◌else◌}
use int_platform_dpdk.Outcome.{Outcome, ok, fault, out_of_bounds, ◌>>=◌}

abbrev pub pkt_buf_size : ℕ
pkt_buf_size = 65536

-- `uint8_t buffer[PKT_BUF_SIZE]`, by index.
abbrev pub Buffer : Type 0
Buffer = ℕ → ℕ

unfoldable pub load8 : Buffer → ℕ → Outcome ℕ
load8 buff i = if ltb i pkt_buf_size then ok (buff i) else fault out_of_bounds

-- An integer of `k` bytes at `off`, as a little-endian host reads it.
unfoldable pub load_le : ℕ → Buffer → ℕ → Outcome ℕ
unfolding load8
load_le zero buff off = ok 0
load_le (suc k) buff off = do
  b ← load8 buff off
  rest ← load_le k buff (off + 1)
  ok (b + 256 * rest)

-- `struct int_influx_t`, packed, without the two reserved bytes: the fields as they lie in memory,
-- in network order.
pub record IntInflux : Type 0 where
  pub src_addr : ℕ
  pub dst_addr : ℕ
  pub ingress_port_id : ℕ
  pub egress_port_id : ℕ
  pub meta_len : ℕ
  pub hop_meta_len : ℕ
  pub ndk_tstamp : ℕ
  pub delay : ℕ
  pub seq : ℕ

-- `sizeof (struct int_influx_t)`.
abbrev pub int_influx_size : ℕ
int_influx_size = 36

-- `struct int_meta_t`, packed.
pub record IntMeta : Type 0 where
  pub switch_id : ℕ
  pub ingress_port_id : ℕ
  pub egress_port_id : ℕ
  pub ingress_tstamp : ℕ
  pub egress_tstamp : ℕ

-- `sizeof (struct int_meta_t)`.
abbrev pub int_meta_size : ℕ
int_meta_size = 24

unfoldable pub load_int_influx : Buffer → ℕ → Outcome IntInflux
load_int_influx buff off = do
  src_addr ← load_le 4 buff off
  dst_addr ← load_le 4 buff (off + 4)
  ingress ← load_le 2 buff (off + 8)
  egress ← load_le 2 buff (off + 10)
  meta_len ← load_le 1 buff (off + 12)
  hop_meta_len ← load_le 1 buff (off + 13)
  ndk_tstamp ← load_le 8 buff (off + 16)
  delay ← load_le 8 buff (off + 24)
  seq ← load_le 4 buff (off + 32)
  ok (record {
    src_addr = src_addr;
    dst_addr = dst_addr;
    ingress_port_id = ingress;
    egress_port_id = egress;
    meta_len = meta_len;
    hop_meta_len = hop_meta_len;
    ndk_tstamp = ndk_tstamp;
    delay = delay;
    seq = seq;
  })

unfoldable pub load_int_meta : Buffer → ℕ → Outcome IntMeta
load_int_meta buff off = do
  switch_id ← load_le 4 buff off
  ingress ← load_le 2 buff (off + 4)
  egress ← load_le 2 buff (off + 6)
  ingress_tstamp ← load_le 8 buff (off + 8)
  egress_tstamp ← load_le 8 buff (off + 16)
  ok (record {
    switch_id = switch_id;
    ingress_port_id = ingress;
    egress_port_id = egress;
    ingress_tstamp = ingress_tstamp;
    egress_tstamp = egress_tstamp;
  })
