-- ===== src/Output.antt =====
-- int_t4p4s_dpdk/p4int_influxdb/p4int.cc: the texts that the program writes to the standard output while
-- it runs: those of print_telemetric, setup_stop, report_to_influx and loop_proccess.
pub mod Reader
pub mod Columns
pub mod Shows
pub mod Verbose
mod Tests
use mathlib.Core.List.{flatten}
use int_platform_dpdk.Base.{ℕ, List, [], ◌∷◌, ◌++◌}
use int_platform_dpdk.Text.{codes, show_ℕ}
use int_platform_dpdk.Types.{TelemetricHdr}
use int_platform_dpdk.Collector.Packets.{Printed, dropped, telemetric, totals, packet_error}

-- `printf` of a label, one value and the end of the line.
unfoldable pub printf : List ℕ → List ℕ → List ℕ
printf label value = label ++ value ++ codes "\n"

unfoldable pub print_telemetric : TelemetricHdr → List ℕ
unfolding printf
print_telemetric hdr = flatten (
    printf (codes "Orig TS       => ") (show_ℕ hdr.orig_ts)
    ∷ printf (codes "Dest TS       => ") (show_ℕ hdr.dst_ts)
    ∷ printf (codes "Seq           => ") (show_ℕ hdr.seq_num)
    ∷ printf (codes "Delay         => ") (show_ℕ hdr.delay)
    ∷ printf (codes "Sink Jitter   => ") (show_ℕ hdr.sink_jitter)
    ∷ printf (codes "IP Src        => ") hdr.src_ip
    ∷ printf (codes "IP Dst        => ") hdr.dst_ip
    ∷ printf (codes "Src Port      => ") (show_ℕ hdr.src_port)
    ∷ printf (codes "Dst Port      => ") (show_ℕ hdr.dst_port)
    ∷ [])

-- setup_stop.
unfoldable pub print_totals : ℕ → ℕ → List ℕ
unfolding printf
print_totals cnt drop =
    codes "\n" ++ printf (codes "total - ") (show_ℕ cnt) ++ printf (codes "drop - ") (show_ℕ drop)

-- report_to_influx.
unfoldable pub print_dropped : ℕ → List ℕ
unfolding printf
print_dropped n = printf (codes "dropped: ") (show_ℕ n)

-- loop_proccess.
unfoldable pub print_error : List ℕ
print_error = codes "Error during the packet processing!\n"

unfoldable pub print_text : Printed → List ℕ
unfolding print_telemetric print_totals print_dropped print_error
print_text (dropped n) = print_dropped n
print_text (telemetric hdr) = print_telemetric hdr
print_text (totals cnt drop) = print_totals cnt drop
print_text packet_error = print_error

unfoldable pub output : List Printed → List ℕ
unfolding print_text
output [] = []
output (p ∷ ps) = print_text p ++ output ps
