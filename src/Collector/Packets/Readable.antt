-- ===== src/Collector/Packets/Readable.antt =====
-- That the report of a received packet fits what its lines can be read back from.
use int_platform_dpdk.Base.{
  ℕ, zero, suc, ◌+◌, ◌^◌, ◌<◌, ◌≡◌, refl, inl, inr, List, [], ◌∷◌, ◌++◌, arith, ◌==◌, Bool-cases,
  true, false,
}
use int_platform_dpdk.Words.{sub64, sub64-lt}
use int_platform_dpdk.Words.Endian.{ntohl, ntohl-lt, ntoh64-lt}
use int_platform_dpdk.Text.{show_ℕ}
use int_platform_dpdk.Text.Numbers.{lacks-show_ℕ}
use int_platform_dpdk.Text.Pieces.{lacks, lacks-append}
use int_platform_dpdk.Types.{Options, TelemetricMeta, TelemetricHdr}
use int_platform_dpdk.Packet.{Buffer}
use int_platform_dpdk.Packet.Fields.{IsBytes, le_at}
use int_platform_dpdk.Report.Reader.RoundTrip.{clean}
use int_platform_dpdk.Report.Points.{
  NodeFits, AllNodesFit, ReportFits, address_clean, signed64_fits,
}
use int_platform_dpdk.Collector.Header.{inet_ntop, get_int_header_data, flow_at}
use int_platform_dpdk.Collector.Nodes.{Timestamps}
use int_platform_dpdk.Collector.Nodes.Spec.{
  ingress_at, egress_at-lt, ingress_lem, hop_record, hop_records, sink_record,
}
use int_platform_dpdk.Collector.Nodes.Result.{with_nodes}
use int_platform_dpdk.Collector.Packets.{World}
use int_platform_dpdk.Collector.Packets.Once.{hops}
use int_platform_dpdk.Collector.Packets.Process.{header_of, report_of}

-- Digits and dots.
lacks-inet_ntop :
    (c : ℕ) (addr : ℕ)
    → ((c == b'.') ≡ false)
    → ((u : ℕ) → lacks c (show_ℕ u) ≡ true)
    → lacks c (inet_ntop addr) ≡ true
unfolding inet_ntop lacks
lacks-inet_ntop c addr dot digit = simp (lacks-append, digit) (ground arith)

clean-inet_ntop : (addr : ℕ) → clean (inet_ntop addr) ≡ true
clean-inet_ntop addr = ground (
  arith,
  lacks-inet_ntop b',' addr refl (lacks-show_ℕ b',' (inl (omega arith))),
  lacks-inet_ntop b' ' addr refl (lacks-show_ℕ b' ' (inl (omega arith))),
  lacks-inet_ntop b'=' addr refl (lacks-show_ℕ b'=' (inr (omega arith))),
  lacks-inet_ntop b'\n' addr refl (lacks-show_ℕ b'\n' (inl (omega arith))),
)

AllNodesFit-append :
    (xs ys : List TelemetricMeta) → AllNodesFit xs → AllNodesFit ys → AllNodesFit (xs ++ ys)
AllNodesFit-append [] ys f g = g
AllNodesFit-append (x ∷ xs) ys (v, f) g = (v, AllNodesFit-append xs ys f g)

module _ (buff : Buffer) (off : ℕ) (bytes : IsBytes buff) (prev : Timestamps) where
  ingress_at-lt : (i : ℕ) → ingress_at buff off i < 2 ^ 64
  ingress_at-lt i = rw (← ingress_lem buff off bytes prev i) (ntoh64-lt _)

  hop_record_fits : (i : ℕ) → NodeFits (hop_record buff off prev i)
  unfolding hop_record
  hop_record_fits i = record {
    hop_delay = sub64-lt _ _;
    hop_jitter = sub64-lt _ _;
    hop_timestamp = egress_at-lt buff off bytes prev i;
    link_delay = elim (Bool-cases (i == 0)) [
      | inl e ↦ rw e (omega arith)
      | inr e ↦ rw e (signed64_fits _)
    ];
  }

  hop_records_fit : (i n : ℕ) → AllNodesFit (hop_records buff off prev i n)
  unfolding hop_records
  hop_records_fit i zero = tt
  hop_records_fit i (suc n) = (hop_record_fits i, hop_records_fit (i + 1) n)

  sink_record_fits :
      (n dst_ts : ℕ) → dst_ts < 2 ^ 64 → NodeFits (sink_record buff off prev n dst_ts)
  unfolding sink_record
  sink_record_fits n dst_ts h = record {
    hop_delay = omega arith;
    hop_jitter = sub64-lt _ _;
    hop_timestamp = h;
    link_delay = signed64_fits _;
  }

module _ (stack : TelemetricHdr) (buff : Buffer) (opt : Options) (w : World)
    (bytes : IsBytes buff) where
  -- The report before its timestamps are cut.
  uncut_fits :
      ReportFits
        (with_nodes (header_of stack buff w.flow_map).0 buff 50 (hops buff) w.prev_timestamps).0
  unfolding header_of get_int_header_data with_nodes address_clean
  uncut_fits = record {
    addresses = simp clean-inet_ntop refl;
    orig_ts = ingress_at-lt buff 50 bytes w.prev_timestamps 0;
    dst_ts = ntoh64-lt _;
    seq_num = ground (arith, ntohl-lt (le_at 4 buff 46));
    delay = sub64-lt _ _;
    sink_jitter = sub64-lt _ _;
    reordering = ground (
      arith,
      signed64_fits
          (sub64 (sub64 (ntohl (le_at 4 buff 46)) (flow_at w.flow_map (le_at 8 buff 14)).seq) 1),
    );
    nodes =
        AllNodesFit-append (hop_records buff 50 w.prev_timestamps 0 (hops buff)) _
          (hop_records_fit buff 50 bytes w.prev_timestamps 0 (hops buff))
          (sink_record_fits buff 50 bytes w.prev_timestamps (hops buff) _ (ntoh64-lt _), tt);
  }

  pub report_of_fits : ReportFits (report_of stack buff opt w)
  unfolding report_of address_clean
  report_of_fits = elim (Bool-cases (opt.tstmp == 1)) [
    | inl cut ↦ rw (cut) (record {
      addresses = uncut_fits.addresses;
      orig_ts = omega arith;
      dst_ts = omega arith;
      seq_num = uncut_fits.seq_num;
      delay = uncut_fits.delay;
      sink_jitter = uncut_fits.sink_jitter;
      reordering = uncut_fits.reordering;
      nodes = uncut_fits.nodes;
    })
    | inr whole ↦ rw (whole) uncut_fits
  ]
