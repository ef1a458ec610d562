-- ===== src/Pipeline/Tests.antt =====
-- Two senders and three reports.
use mathlib.Core.List.{flatten}
use int_platform_dpdk.Text.{codes}
use int_platform_dpdk.Ring.Window.{contents}
use int_platform_dpdk.Sender.Lossless.{report_text}
use int_platform_dpdk.Sender.Blocks.{AllFilled}
use int_platform_dpdk.Pipeline.Delivery.{polls_deliver}
use int_platform_dpdk.Base.{
  ◌+◌, ◌++◌, replicate, get_elem?, ℕ, ◌≡◌, refl, List, [], ◌∷◌, map, none, some, arith,
}
use int_platform_dpdk.Outcome.{ok}
use int_platform_dpdk.Types.{Options, TelemetricHdr}
use int_platform_dpdk.Samples.{sample_options, sample_report, bare_report}
use int_platform_dpdk.Report.Tests.{sample_report-HasAddresses}
use int_platform_dpdk.Sender.{Transport}
use int_platform_dpdk.Exporter.{IntExporter, Buffered, ring_buffer_size}
use int_platform_dpdk.Exporter.Start.{by_udp, by_http, sender_kind, constructed, new_exporter}
use int_platform_dpdk.Exporter.Fresh.{threads_from}
use int_platform_dpdk.Pipeline.{Threads, Turn, exported, polled, started, turns}
use int_platform_dpdk.Pipeline.Inv.{exports, routed}
use int_platform_dpdk.Pipeline.Accounts.{Accounted, turns-Accounted}

abbrev pub quiet_sockets : ℕ → Transport
quiet_sockets i n text = none

abbrev pub blank_cells : ℕ → TelemetricHdr
blank_cells i = bare_report

-- The first report goes to ring 1; thread 0 finds its ring empty, thread 1 takes the report.
abbrev some_turns : List Turn
some_turns =
    exported sample_report
    ∷ polled 0
    ∷ polled 1
    ∷ exported sample_report
    ∷ exported sample_report
    ∷ polled 1
    ∷ []

pub known_kind : sender_kind sample_options.protocol ≡ some by_udp
unfolding sender_kind
known_kind = refl

turns-Accounted_example :
    (e : IntExporter) × (p : Threads) × (new_exporter blank_cells sample_options
      ≡ constructed e (threads_from by_udp 0 2))
    × (turns sample_options by_udp quiet_sockets bare_report some_turns (started e) ≡ ok p)
    × Accounted (exports some_turns) p
turns-Accounted_example =
    turns-Accounted sample_options by_udp quiet_sockets bare_report refl blank_cells some_turns
      known_kind (omega arith)
      (sample_report-HasAddresses, (sample_report-HasAddresses, (sample_report-HasAddresses, tt)))

abbrev pub by_web : Options
by_web = record sample_options { protocol = codes "http" }

pub web_kind : sender_kind by_web.protocol ≡ some by_http
unfolding sender_kind
web_kind = refl

polls_deliver_example :
    (e : IntExporter) × (p : Threads) × (r : Buffered) × (new_exporter blank_cells by_web
      ≡ constructed e (threads_from by_http 0 2))
    × (turns by_web by_http quiet_sockets bare_report
          (some_turns ++ replicate (ring_buffer_size + 10) (polled 1))
          (started e)
        ≡ ok p)
    × (get_elem? p.exporter.ring_buffs 1 ≡ some r)
    × (contents ring_buffer_size r ≡ [])
    × ((p.senders 1).text ≡ [])
    × (flatten (p.senders 1).sent ≡ report_text (routed 1 p.accepted))
    × ((blocks : List (List TelemetricHdr)) × AllFilled blocks
        × ((p.senders 1).sent ≡ map report_text blocks)
        × (flatten blocks ≡ routed 1 p.accepted))
polls_deliver_example =
    polls_deliver by_web quiet_sockets bare_report refl blank_cells some_turns 1 web_kind
      (omega arith)
      (sample_report-HasAddresses, (sample_report-HasAddresses, (sample_report-HasAddresses, tt)))
      (omega arith)
