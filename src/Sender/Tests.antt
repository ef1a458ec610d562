-- ===== src/Sender/Tests.antt =====
-- The senders on two reports.
use int_platform_dpdk.Base.{
  ℕ, map, ◌+◌, ◌*◌, ◌<◌, ◌≡◌, refl, List, [], ◌∷◌, ◌++◌, arith, length, Option, none, some, ◌==◌,
  if◌then◌else◌,
}
use int_platform_dpdk.Outcome.{ok}
use int_platform_dpdk.Text.{codes}
use int_platform_dpdk.Types.{TelemetricHdr}
use int_platform_dpdk.Samples.{sample_options, sample_report}
use int_platform_dpdk.Report.Tests.{sample_report-HasAddresses}
use int_platform_dpdk.Sender.{Transport, SenderState, idle, udp_sender, http_sender}
use int_platform_dpdk.Sender.Lossless.{report_text, popped, AllAddresses}
use int_platform_dpdk.Sender.UdpBatches.{udp_sender_stuck, udp_sender_batches}
use int_platform_dpdk.Text.Pieces.{lacks}
use int_platform_dpdk.Report.Reader.{read_points}
use int_platform_dpdk.Report.Points.{ReportFits, address_clean}
use int_platform_dpdk.Sender.Decoded.{all_points, read_points-report_text}
use int_platform_dpdk.Sender.Errors.{exceptions, udp_line, http_line, senders_report}
use int_platform_dpdk.Sender.Blocks.{Blocks, udp_sender-Blocks, http_sender-Blocks}

-- The second call throws.
abbrev flaky : Transport
flaky n text = if n == 1 then some (codes "Connection refused") else none

abbrev reports : List TelemetricHdr
reports = sample_report ∷ sample_report ∷ sample_report ∷ []

reports-AllAddresses : AllAddresses reports
reports-AllAddresses =
    (sample_report-HasAddresses, (sample_report-HasAddresses, (sample_report-HasAddresses, tt)))

abbrev polls : List (Option TelemetricHdr)
polls = some sample_report ∷ none ∷ some sample_report ∷ none ∷ []

-- Five records held, and a batch of four.
abbrev past_batch : SenderState
past_batch = record idle { it = 5; text = codes "x" }

udp_sender-Blocks_example :
    (s' : SenderState) × (udp_sender sample_options flaky 0 reports idle ≡ ok s')
    × Blocks s' reports
udp_sender-Blocks_example =
    udp_sender-Blocks sample_options flaky refl 0 reports reports-AllAddresses

http_sender-Blocks_example :
    (s' : SenderState) × (http_sender sample_options flaky polls idle ≡ ok s')
    × Blocks s' (popped polls)
http_sender-Blocks_example =
    http_sender-Blocks sample_options flaky refl polls
      (sample_report-HasAddresses, (sample_report-HasAddresses, tt))

udp_sender_stuck_example :
    (s' : SenderState) × (udp_sender sample_options flaky 0 reports past_batch ≡ ok s')
    × (s'.sent ≡ past_batch.sent)
    × (s'.text ≡ past_batch.text ++ report_text reports)
udp_sender_stuck_example =
    udp_sender_stuck sample_options flaky refl 0 reports past_batch reports-AllAddresses
      (omega arith) (omega arith)

udp_sender_batches_example :
    (s' : SenderState) × (q : ℕ) × (j' : ℕ) × (udp_sender sample_options flaky 0 reports idle
      ≡ ok s')
    × (length s'.sent ≡ length idle.sent + q)
    × (s'.it ≡ j' * 2)
    × (j' < 2)
    × (0 + length reports ≡ 2 * q + j')
udp_sender_batches_example =
    udp_sender_batches sample_options flaky refl 0 2 2 reports idle 0 reports-AllAddresses
      (refl, (refl, (refl, tt))) refl (omega arith) (omega arith) refl (omega arith)

sample_report-ReportFits : ReportFits sample_report
unfolding address_clean lacks
sample_report-ReportFits = record {
  addresses = refl;
  orig_ts = omega arith;
  dst_ts = omega arith;
  seq_num = omega arith;
  delay = omega arith;
  sink_jitter = omega arith;
  reordering = (omega arith, omega arith);
  nodes = (
    record {
      hop_delay = omega arith;
      hop_jitter = omega arith;
      hop_timestamp = omega arith;
      link_delay = (omega arith, omega arith);
    },
    tt,
  );
}

read_points-report_text_example :
    read_points (report_text (sample_report ∷ sample_report ∷ []))
    ≡ some (all_points (sample_report ∷ sample_report ∷ []))
read_points-report_text_example =
    read_points-report_text (sample_report ∷ sample_report ∷ [])
      (sample_report-ReportFits, (sample_report-ReportFits, tt))

senders_report_example :
    ((s' : SenderState) × (udp_sender sample_options flaky 0 reports idle ≡ ok s')
      × (s'.errors ≡ map (udp_line 0) (exceptions flaky 0 s'.sent)))
    × ((s' : SenderState) × (http_sender sample_options flaky polls idle ≡ ok s')
        × (s'.errors ≡ map http_line (exceptions flaky 0 s'.sent)))
senders_report_example =
    senders_report sample_options flaky refl 0 reports polls reports-AllAddresses
      (sample_report-HasAddresses, (sample_report-HasAddresses, tt))
