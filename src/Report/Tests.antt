-- ===== src/Report/Tests.antt =====
-- A report at concrete values.
use mathlib.Core.List.{flatten}
use int_platform_dpdk.Base.{◌≡◌, refl, arith}
use int_platform_dpdk.Text.{codes, show_ℕ, show_ℤ}
use int_platform_dpdk.Samples.{sample_report}
use int_platform_dpdk.Report.{flow_line, tags, node_line, first_line}
use int_platform_dpdk.Report.Lines.{HasAddresses, node_lines, report_lines}

report_lines_test :
    flatten (report_lines sample_report)
    ≡ codes
        "int_telemetry,srcip=10.0.0.1,dstip=10.0.0.2,srcp=1000,dstp=2000,protocol=6 origts=100,dstts=110,seq=7,delay=10,sink_jitter=3,reordering=0 110\nint_telemetry,srcip=10.0.0.1,dstip=10.0.0.2,srcp=1000,dstp=2000,protocol=6,hop_index=0 hop_delay=5,hop_jitter=100 105\n"
unfolding report_lines flatten flow_line tags show_ℕ show_ℤ node_lines node_line first_line
report_lines_test = refl

pub sample_report-HasAddresses : HasAddresses sample_report
sample_report-HasAddresses = record { src = omega arith; dst = omega arith }
