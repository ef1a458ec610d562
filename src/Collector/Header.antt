-- ===== src/Collector/Header.antt =====
-- get_int_header_data of p4int.cc, and the flow table that it keeps.
pub mod Flows
pub mod Runs
pub mod AnyOrder
mod Tests
use int_platform_dpdk.Base.{ℕ, ◌+◌, ◌/◌, ◌%◌, ◌^◌, List, [], ◌∷◌, ◌++◌, ◌==◌, if◌then◌else◌, pos}
use int_platform_dpdk.Words.{u8, u64, sub64, signed64}
use int_platform_dpdk.Words.Endian.{shr, ntohs, ntohl, ntoh64}
use int_platform_dpdk.Text.{show_ℕ}
use int_platform_dpdk.Types.{TelemetricHdr, MetaData, no_meta}
use int_platform_dpdk.Packet.{IntInflux}

abbrev pub tcp : ℕ
tcp = 6

abbrev pub udp : ℕ
udp = 17

-- `std::map<uint64_t, meta_data>`.
abbrev pub FlowMap : Type 0
FlowMap = List (ℕ × MetaData)

-- `flow_map[key]`, read: a key that is not there is given the initial value.
unfoldable pub flow_at : FlowMap → ℕ → MetaData
flow_at [] key = no_meta
flow_at ((k, v) ∷ flows) key = if k == key then v else flow_at flows key

-- An assignment through the reference `flow_map[key]`.
unfoldable pub set_flow : FlowMap → ℕ → MetaData → FlowMap
set_flow [] key v = (key, v) ∷ []
set_flow ((k, w) ∷ flows) key v = if k == key then (k, v) ∷ flows else (k, w) ∷ set_flow flows key v

-- `inet_ntop(AF_INET, …)`: the four bytes of the address in memory, in decimal.
unfoldable pub inet_ntop : ℕ → List ℕ
inet_ntop addr =
    show_ℕ (u8 addr)
    ++ (b'.' ∷ show_ℕ (u8 (shr addr 8)))
    ++ (b'.' ∷ show_ℕ (u8 (shr addr 16)))
    ++ (b'.' ∷ show_ℕ (u8 (shr addr 24)))

-- `tmp_hdr` is what the structure holds before: the call sets all of it but `orig_ts` and
-- `node_meta`.
unfoldable pub get_int_header_data :
    TelemetricHdr → IntInflux → ℕ → FlowMap → TelemetricHdr × FlowMap
get_int_header_data tmp_hdr int_hdr map_key flow_map =
    let dst_ts = ntoh64 int_hdr.ndk_tstamp in
    let meta_tmp = flow_at flow_map map_key in
    let seq = ntohl int_hdr.seq in
    let seq_num = if seq == 0 then u64 (meta_tmp.seq + 1) else seq in
    (
      record tmp_hdr {
        src_ip = inet_ntop int_hdr.src_addr;
        dst_ip = inet_ntop int_hdr.dst_addr;
        src_port = ntohs int_hdr.ingress_port_id;
        dst_port = ntohs int_hdr.egress_port_id;
        dst_ts = dst_ts;
        protocol = if seq == 0 then udp else tcp;
        seq_num = seq_num;
        delay = 0;
        sink_jitter = sub64 dst_ts meta_tmp.prev_dst_ts;
        reordering = if seq == 0 then pos 0 else signed64 (sub64 (sub64 seq meta_tmp.seq) 1);
      },
      set_flow flow_map map_key (record { seq = seq_num; prev_dst_ts = dst_ts }),
    )
