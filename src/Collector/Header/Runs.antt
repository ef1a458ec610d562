-- ===== src/Collector/Header/Runs.antt =====
-- Many packets of many flows, through get_int_header_data one after another.
use int_platform_dpdk.Base.{
  ℕ, ◌+◌, ◌%◌, ◌^◌, ◌≤◌, ◌<◌, ◌≡◌, ap, ◌∙◌, List, [], ◌∷◌, length, arith, ◌==◌, if◌then◌else◌,
  pos_part, neg_part, Bool-cases, inl, inr, true, false,
}
use int_platform_dpdk.Words.{sub64-add}
use int_platform_dpdk.Words.Endian.{ntohl-lt, ntoh64}
use int_platform_dpdk.Types.{TelemetricHdr}
use int_platform_dpdk.Packet.{IntInflux}
use int_platform_dpdk.Collector.Header.{FlowMap, flow_at, get_int_header_data}
use int_platform_dpdk.Collector.Header.Flows.{flow_at-get_int_header_data, reordering_lem}

-- Packets with the keys of their flows; the reports' headers with their keys, and the flow table.
unfoldable pub headers :
    TelemetricHdr → List (ℕ × IntInflux) → FlowMap → List (ℕ × TelemetricHdr) × FlowMap
headers tmp_hdr [] flows = ([], flows)
headers tmp_hdr ((key, int_hdr) ∷ packets) flows =
    let (hdr, flows') = get_int_header_data tmp_hdr int_hdr key flows in
    let (hdrs, flows'') = headers tmp_hdr packets flows' in ((key, hdr) ∷ hdrs, flows'')

-- A sum over the reports of one flow.
abbrev pub total : (TelemetricHdr → ℕ) → ℕ → List (ℕ × TelemetricHdr) → ℕ
total f key [] = 0
total f key ((k, hdr) ∷ hdrs) = if k == key then f hdr + total f key hdrs else total f key hdrs

abbrev pub one : TelemetricHdr → ℕ
one hdr = 1

-- The reported reordering, by its sign.
abbrev pub ahead : TelemetricHdr → ℕ
ahead hdr = pos_part hdr.reordering

abbrev pub behind : TelemetricHdr → ℕ
behind hdr = neg_part hdr.reordering

abbrev pub jitter : TelemetricHdr → ℕ
jitter hdr = hdr.sink_jitter

module _ (tmp_hdr : TelemetricHdr) (key : ℕ) where
  -- What a run leaves of the flow.
  record Followed (flows flows' : FlowMap) (hdrs : List (ℕ × TelemetricHdr)) : Type 0 where
    numbers :
        (flow_at flows' key).seq + total behind key hdrs
        ≡ (flow_at flows key).seq + total one key hdrs + total ahead key hdrs
    times :
        ((flow_at flows key).prev_dst_ts + total jitter key hdrs) % 2 ^ 64
        ≡ (flow_at flows' key).prev_dst_ts % 2 ^ 64

  -- A packet's number is of 32 bits, or the one after the flow's last.
  seq_num-le :
      (int_hdr : IntInflux) (k : ℕ) (flows : FlowMap) (most : ℕ)
      → (flow_at flows k).seq ≤ most
      → 2 ^ 32 ≤ most
      → (get_int_header_data tmp_hdr int_hdr k flows).0.seq_num ≤ most + 1
  unfolding get_int_header_data
  seq_num-le int_hdr k flows most low wide = ground (arith, ntohl-lt int_hdr.seq)

  jitter_lem :
      (int_hdr : IntInflux) (k : ℕ) (flows : FlowMap)
      → let hdr = (get_int_header_data tmp_hdr int_hdr k flows).0 in
        (hdr.sink_jitter + (flow_at flows k).prev_dst_ts) % 2 ^ 64 ≡ hdr.dst_ts % 2 ^ 64
  unfolding get_int_header_data
  jitter_lem int_hdr k flows = sub64-add (ntoh64 int_hdr.ndk_tstamp) (flow_at flows k).prev_dst_ts

  module _ (int_hdr : IntInflux) (k : ℕ) (flows flows' : FlowMap)
      (hdrs : List (ℕ × TelemetricHdr)) where
    -- A packet of the flow, and one of another flow, before a run.
    own_step :
        (k == key) ≡ true
        → (flow_at flows key).seq + 1 < 2 ^ 63
        → Followed (get_int_header_data tmp_hdr int_hdr k flows).1 flows' hdrs
        → Followed flows flows' ((k, (get_int_header_data tmp_hdr int_hdr k flows).0) ∷ hdrs)
    own_step hit small rest =
        let same : k ≡ key = ground (arith, hit) in
        let hdr = (get_int_header_data tmp_hdr int_hdr k flows).0 in
        let memory : flow_at (get_int_header_data tmp_hdr int_hdr k flows).1 key
            ≡ record { seq = hdr.seq_num; prev_dst_ts = hdr.dst_ts } =
          flow_at-get_int_header_data tmp_hdr int_hdr k key flows
          ∙ ap
              (λ b.
                if b
                then record { seq = hdr.seq_num; prev_dst_ts = hdr.dst_ts }
                else flow_at flows key)
              hit in
        let before : (flow_at flows k).seq ≡ (flow_at flows key).seq =
          ap (λ j. (flow_at flows j).seq) same in
        let before_ts : (flow_at flows k).prev_dst_ts ≡ (flow_at flows key).prev_dst_ts =
          ap (λ j. (flow_at flows j).prev_dst_ts) same in
        record {
          numbers = rw (hit) (
              omega (
                arith,
                reordering_lem tmp_hdr int_hdr k flows (omega (arith, before, small)),
                before,
                rest.numbers,
                ap (λ m. m.seq) memory,
              ));
          times = rw (hit) (
              omega (
                arith,
                jitter_lem int_hdr k flows,
                before_ts,
                rest.times,
                ap (λ m. m.prev_dst_ts) memory,
              ));
        }

    other_step :
        (k == key) ≡ false
        → Followed (get_int_header_data tmp_hdr int_hdr k flows).1 flows' hdrs
        → Followed flows flows' ((k, (get_int_header_data tmp_hdr int_hdr k flows).0) ∷ hdrs)
    other_step other rest =
        let hdr = (get_int_header_data tmp_hdr int_hdr k flows).0 in
        let memory : flow_at (get_int_header_data tmp_hdr int_hdr k flows).1 key
            ≡ flow_at flows key =
          flow_at-get_int_header_data tmp_hdr int_hdr k key flows
          ∙ ap
              (λ b.
                if b
                then record { seq = hdr.seq_num; prev_dst_ts = hdr.dst_ts }
                else flow_at flows key)
              other in
        record {
          numbers = rw (other) (omega (arith, rest.numbers, ap (λ m. m.seq) memory));
          times = rw (other) (omega (arith, rest.times, ap (λ m. m.prev_dst_ts) memory));
        }

  -- The flow's number stays low.
  still_low :
      (int_hdr : IntInflux) (k : ℕ) (flows : FlowMap) (most : ℕ)
      → (flow_at flows key).seq ≤ most
      → 2 ^ 32 ≤ most
      → (flow_at (get_int_header_data tmp_hdr int_hdr k flows).1 key).seq ≤ most + 1
  still_low int_hdr k flows most low wide =
      let kept = flow_at-get_int_header_data tmp_hdr int_hdr k key flows in
      elim (Bool-cases (k == key)) [
        | inl hit ↦
            let same : k ≡ key = ground (arith, hit) in
            let before : (flow_at flows k).seq ≡ (flow_at flows key).seq =
              ap (λ j. (flow_at flows j).seq) same in
            rw (kept, hit) (seq_num-le int_hdr k flows most (omega (arith, before, low)) wide)
        | inr other ↦ rw (kept, other) (omega (arith, low))
      ]

  follow :
      (packets : List (ℕ × IntInflux)) (flows : FlowMap) (most : ℕ)
      → (flow_at flows key).seq ≤ most
      → 2 ^ 32 ≤ most
      → most + length packets + 1 < 2 ^ 63
      → Followed flows (headers tmp_hdr packets flows).1 (headers tmp_hdr packets flows).0
  unfolding headers
  follow [] flows most low wide small = record { numbers = omega arith; times = omega arith }
  follow ((k, int_hdr) ∷ packets) flows most low wide small =
      let (hdr, mid) = get_int_header_data tmp_hdr int_hdr k flows in
      let (hdrs, flows') = headers tmp_hdr packets mid in
      let rest =
        follow packets mid (most + 1) (still_low int_hdr k flows most low wide)
          (omega (arith, wide)) (omega (arith, small)) in
      elim (Bool-cases (k == key)) [
        | inl hit ↦ own_step int_hdr k flows flows' hdrs hit (omega (arith, low, small)) rest
        | inr other ↦ other_step int_hdr k flows flows' hdrs other rest
      ]

  -- For any packets of any flows, in any order, as long as a flow's numbers stay below 2 ^ 63: over the
  -- reports of the flow, the sum of the reported reorderings is the distance from the number of the
  -- flow's last report before to that of its last report now, less the number of its reports (a gap
  -- that late packets fill comes to nothing); and the sum of the sink jitters is the time from the
  -- destination timestamp of the one to that of the other, in 64 bits.
  pub headers_lem :
      (packets : List (ℕ × IntInflux)) (flows : FlowMap)
      → (flow_at flows key).seq + length packets + 2 ^ 32 + 1 < 2 ^ 63
      → let (hdrs, flows') = headers tmp_hdr packets flows in
        ((flow_at flows' key).seq + total behind key hdrs
          ≡ (flow_at flows key).seq + total one key hdrs + total ahead key hdrs)
        × (((flow_at flows key).prev_dst_ts + total jitter key hdrs) % 2 ^ 64
            ≡ (flow_at flows' key).prev_dst_ts % 2 ^ 64)
  headers_lem packets flows small =
      let followed =
        follow packets flows ((flow_at flows key).seq + 2 ^ 32) (omega arith) (omega arith)
          (omega (arith, small)) in
      (followed.numbers, followed.times)
