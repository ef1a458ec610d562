-- ===== src/Collector/Packets/Exported.antt =====
-- From the received packet to the lines of its report.
use mathlib.Core.List.{flatten}
use int_platform_dpdk.Base.{
  ℕ, ◌+◌, ◌≡◌, refl, ap, ◌∙◌, List, ◌++◌, arith, length, length-append, ◌==◌, Bool-cases, inl, inr,
}
use int_platform_dpdk.Outcome.{ok, ◌>>=◌}
use int_platform_dpdk.Types.{Options, TelemetricHdr, ret_ok}
use int_platform_dpdk.Packet.{Buffer}
use int_platform_dpdk.Report.{add_report}
use int_platform_dpdk.Report.Lines.{HasAddresses, report_lines, add_report_lem}
use int_platform_dpdk.Collector.Header.{get_int_header_data}
use int_platform_dpdk.Collector.Header.Flows.{length-inet_ntop}
use int_platform_dpdk.Collector.Nodes.Spec.{hop_records}
use int_platform_dpdk.Collector.Nodes.Shape.{length-hop_records}
use int_platform_dpdk.Collector.Nodes.Result.{with_nodes}
use int_platform_dpdk.Collector.Packets.{World, process_packet, report_to_influx}
use int_platform_dpdk.Collector.Packets.Once.{hops}
use int_platform_dpdk.Collector.Packets.Process.{
  IsSafe, header_of, report_of, world_of, taken_apart,
}

module _ (stack : TelemetricHdr) (buff : Buffer) (opt : Options) (w : World) where
  pub report_of-HasAddresses : HasAddresses (report_of stack buff opt w)
  unfolding report_of header_of get_int_header_data with_nodes
  report_of-HasAddresses = elim (Bool-cases (opt.tstmp == 1)) [
    | inl cut ↦ rw (cut) (record { src = length-inet_ntop _; dst = length-inet_ntop _ })
    | inr whole ↦ rw (whole) (record { src = length-inet_ntop _; dst = length-inet_ntop _ })
  ]

  length-report_of : length (report_of stack buff opt w).node_meta ≡ hops buff + 1
  unfolding report_of header_of get_int_header_data with_nodes
  length-report_of =
      let count : length (hop_records buff 50 w.prev_timestamps 0 (hops buff)) ≡ hops buff =
        length-hop_records buff 50 w.prev_timestamps 0 (hops buff) in
      elim (Bool-cases (opt.tstmp == 1)) [
        | inl cut ↦
            rw (cut, length-append (hop_records buff 50 w.prev_timestamps 0 (hops buff)), count)
              refl
        | inr whole ↦
            rw (whole, length-append (hop_records buff 50 w.prev_timestamps 0 (hops buff)), count)
              refl
      ]

  -- A safe packet (bytes, a hop length other than 0, fewer than ten hops, a sampling rate other
  -- than 0 if there is a host) is handed to report_to_influx as one report, which depends on its
  -- bytes, the memory of its flow and of the hops, and one option; and behind any text, add_report
  -- writes that report without overrunning a buffer, as two lines more than the packet has hops:
  -- one for the flow, one for each hop and one for the sink.
  pub process_packet-add_report :
      (text : List ℕ)
      → IsSafe opt buff
      → (process_packet stack buff opt w ≡ (
          report_to_influx opt (report_of stack buff opt w) (world_of stack buff w) >>= λ w'.
          ok (ret_ok, w')))
        × (add_report (report_of stack buff opt w) text
            ≡ ok (hops buff + 2, text ++ flatten (report_lines (report_of stack buff opt w))))
  process_packet-add_report text safe = (
    taken_apart stack buff opt w safe.bytes safe.divides safe.few,
    add_report_lem (report_of stack buff opt w) text report_of-HasAddresses
        ∙ ap (λ n. ok (n, text ++ flatten (report_lines (report_of stack buff opt w))))
            (omega (arith, length-report_of)),
  )
