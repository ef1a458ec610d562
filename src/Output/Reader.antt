-- ===== src/Output/Reader.antt =====
-- A reader of the standard output, which takes the values behind one label.
use int_platform_dpdk.Base.{ℕ, ◌≡◌, List, [], ◌∷◌, true, Option, none, some, ◌==◌, if◌then◌else◌}
use int_platform_dpdk.Text.{codes, show_ℕ}
use int_platform_dpdk.Text.Pieces.{lacks, pieces}
use int_platform_dpdk.Types.{TelemetricHdr}
use int_platform_dpdk.Collector.Packets.{Printed, dropped, telemetric, totals, packet_error}

-- The lines of print_telemetric, by what they show.
pub data Column : Type 0 where
  origin_time : Column
  sink_time : Column
  sequence : Column
  delay_ns : Column
  jitter_ns : Column
  source : Column
  destination : Column
  source_port : Column
  destination_port : Column

abbrev pub label : Column → List ℕ
label origin_time = codes "Orig TS       => "
label sink_time = codes "Dest TS       => "
label sequence = codes "Seq           => "
label delay_ns = codes "Delay         => "
label jitter_ns = codes "Sink Jitter   => "
label source = codes "IP Src        => "
label destination = codes "IP Dst        => "
label source_port = codes "Src Port      => "
label destination_port = codes "Dst Port      => "

-- The value that a report is meant to show there.
abbrev pub shown : Column → TelemetricHdr → List ℕ
shown origin_time t = show_ℕ t.orig_ts
shown sink_time t = show_ℕ t.dst_ts
shown sequence t = show_ℕ t.seq_num
shown delay_ns t = show_ℕ t.delay
shown jitter_ns t = show_ℕ t.sink_jitter
shown source t = t.src_ip
shown destination t = t.dst_ip
shown source_port t = show_ℕ t.src_port
shown destination_port t = show_ℕ t.dst_port

-- The rest of a line that starts with the label.
unfoldable pub after : List ℕ → List ℕ → Option (List ℕ)
after [] text = some text
after (c ∷ cs) [] = none
after (c ∷ cs) (d ∷ text) = let rest = after cs text in if c == d then rest else none

unfoldable pub keep : Option (List ℕ) → List (List ℕ) → List (List ℕ)
keep (some value) values = value ∷ values
keep none values = values

unfoldable pub column : List ℕ → List (List ℕ) → List (List ℕ)
unfolding keep after
column l [] = []
column l (line ∷ lines) = keep (after l line) (column l lines)

-- The values of a column in a text.
unfoldable pub read_column : Column → List ℕ → List (List ℕ)
unfolding column
read_column c text = column (label c) (pieces b'\n' text)

-- The reports among what was printed.
abbrev pub reports : List Printed → List TelemetricHdr
reports [] = []
reports (telemetric hdr ∷ ps) = hdr ∷ reports ps
reports (dropped n ∷ ps) = reports ps
reports (totals cnt drop ∷ ps) = reports ps
reports (packet_error ∷ ps) = reports ps

-- The addresses are each in one line.
abbrev pub AllLines : List TelemetricHdr → Type 0
AllLines [] = Unit
AllLines (t ∷ ts) = (lacks b'\n' t.src_ip ≡ true) × (lacks b'\n' t.dst_ip ≡ true) × AllLines ts
