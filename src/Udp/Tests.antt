-- ===== src/Udp/Tests.antt =====
-- The default batch over a socket that refuses what no datagram holds.
use int_platform_dpdk.Base.{
  ℕ, ◌*◌, ◌≤◌, ◌≡◌, refl, List, [], ◌∷◌, ltb, length, none, some, if◌then◌else◌, arith,
}
use int_platform_dpdk.Outcome.{ok}
use int_platform_dpdk.Text.{codes}
use int_platform_dpdk.Types.{Options, TelemetricHdr}
use int_platform_dpdk.Samples.{sample_options, sample_report}
use int_platform_dpdk.Report.Tests.{sample_report-HasAddresses}
use int_platform_dpdk.Sender.{Transport, SenderState, idle, udp_sender}
use int_platform_dpdk.Udp.{Resolved, found, opened, new_udp, send}
use int_platform_dpdk.Udp.Oversized.{HasLimit, min_line, udp_sender_oversized}

abbrev default_batch : Options
default_batch = record sample_options { batch = 1000 }

abbrev limited : Transport
limited n text = if ltb 65507 (length text) then some (codes "Message too long") else none

limited-HasLimit : HasLimit limited
limited-HasLimit n text long = (codes "Message too long", ground (arith, long))

abbrev two_reports : List TelemetricHdr
two_reports = sample_report ∷ sample_report ∷ []

udp_sender_oversized_example :
    (s' : SenderState) × (udp_sender default_batch (send limited) 0 two_reports idle ≡ ok s')
    × (length s'.errors ≡ length s'.sent)
    × (min_line * s'.it ≤ length s'.text)
udp_sender_oversized_example =
    udp_sender_oversized default_batch limited limited-HasLimit refl (omega arith) 0 two_reports
      (sample_report-HasAddresses, (sample_report-HasAddresses, tt))

-- The first endpoint is taken.
abbrev two_endpoints : List ℕ → List ℕ → Resolved ℕ
two_endpoints host service = found (8 ∷ 9 ∷ [])

new_udp_test : new_udp none two_endpoints (codes "localhost") 8089 ≡ opened 8
unfolding new_udp
new_udp_test = refl
