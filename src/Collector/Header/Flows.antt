-- ===== src/Collector/Header/Flows.antt =====
-- Per-flow memory: what a packet of a flow sees of the packets before it.
use int_platform_dpdk.Base.{
  ℕ, ◌+◌, ◌^◌, ◌≤◌, ◌<◌, ◌≡◌, refl, [], ◌∷◌, arith, ◌==◌, if◌then◌else◌, length, pos_part, neg_part,
  length-append, Bool-cases, inl, inr,
}
use int_platform_dpdk.Words.{u8, sub64-sub64, signed64-sub64}
use int_platform_dpdk.Words.Endian.{shr, ntohl, ntohl-lt}
use int_platform_dpdk.Text.Bounds.{length-show_ℕ}
use int_platform_dpdk.Types.{TelemetricHdr, MetaData}
use int_platform_dpdk.Packet.{IntInflux}
use int_platform_dpdk.Collector.Header.{FlowMap, flow_at, set_flow, inet_ntop, get_int_header_data}

pub flow_at-set_flow :
    (flows : FlowMap) (k j : ℕ) (v : MetaData)
    → flow_at (set_flow flows k v) j ≡ (if k == j then v else flow_at flows j)
unfolding flow_at set_flow
flow_at-set_flow [] k j v = refl
flow_at-set_flow ((i, w) ∷ flows) k j v = ground (arith, flow_at-set_flow flows k j v)

-- A packet changes the memory of its own flow only, and there leaves its sequence number and its
-- destination timestamp.
pub flow_at-get_int_header_data :
    (tmp_hdr : TelemetricHdr) (int_hdr : IntInflux) (key other : ℕ) (flows : FlowMap)
    → let (hdr, flows') = get_int_header_data tmp_hdr int_hdr key flows in
      flow_at flows' other ≡ (
        if key == other
        then record { seq = hdr.seq_num; prev_dst_ts = hdr.dst_ts }
        else flow_at flows other)
unfolding get_int_header_data
flow_at-get_int_header_data tmp_hdr int_hdr key other flows = flow_at-set_flow flows key other _

-- The reported reordering is the distance, as an integer, from the number that was due (the one
-- after the last of the flow) to the number that the report carries: positive for a gap, negative
-- for a late packet, and 0 for a packet without a number, which is given the number that is due.
-- The condition is that the flow's last number is below 2 ^ 63 - 1.
pub reordering_lem :
    (tmp_hdr : TelemetricHdr) (int_hdr : IntInflux) (key : ℕ) (flows : FlowMap)
    → (flow_at flows key).seq + 1 < 2 ^ 63
    → let hdr = (get_int_header_data tmp_hdr int_hdr key flows).0 in
      hdr.seq_num + neg_part hdr.reordering ≡ (flow_at flows key).seq + 1 + pos_part hdr.reordering
unfolding get_int_header_data
reordering_lem tmp_hdr int_hdr key flows small = elim (Bool-cases (ntohl int_hdr.seq == 0)) [
  | inl missing ↦ rw missing (omega arith)
  | inr numbered ↦ rw numbered (
      rw (sub64-sub64 (ntohl int_hdr.seq) (flow_at flows key).seq 1) (
        omega (
          arith,
          signed64-sub64 (ntohl int_hdr.seq) ((flow_at flows key).seq + 1),
          ntohl-lt int_hdr.seq,
        )))
]

-- An address takes at most fifteen bytes, so that with its final zero byte it fits `IP_BUFF_SIZE`.
pub length-inet_ntop : (addr : ℕ) → length (inet_ntop addr) ≤ 15
unfolding inet_ntop
length-inet_ntop addr = simp length-append (
    omega (
      arith,
      length-show_ℕ 2 (u8 addr),
      length-show_ℕ 2 (u8 (shr addr 8)),
      length-show_ℕ 2 (u8 (shr addr 16)),
      length-show_ℕ 2 (u8 (shr addr 24)),
    ))
