-- ===== src/Report.antt =====
-- int_t4p4s_dpdk/p4int_influxdb/p4_influxdb.cc, add_report: a report as lines of InfluxDB's line
-- protocol. `sprintf` into one of the two buffers of 400 bytes is checked for its end.
pub mod Lines
pub mod Reader
pub mod Points
pub mod Tests
use int_platform_dpdk.Base.{
  ℕ, zero, suc, ◌+◌, List, [], ◌∷◌, ◌++◌, Bool, true, false, length, ltb, ◌==◌, if◌then◌else◌,
}
use int_platform_dpdk.Outcome.{Outcome, ok, fault, out_of_bounds, ◌>>=◌}
use int_platform_dpdk.Words.{signed64}
use int_platform_dpdk.Text.{codes, show_ℕ, show_ℤ}
use int_platform_dpdk.Types.{TelemetricMeta, TelemetricHdr}

-- `char report[400]` and `char tmp[400]`.
abbrev pub report_size : ℕ
report_size = 400

-- The text and its final zero byte fit the buffer, or the call writes past it.
unfoldable pub sprintf : List ℕ → Outcome (List ℕ)
sprintf text = if ltb (length text) report_size then ok text else fault out_of_bounds

-- "Same part for every record".
unfoldable pub tags : TelemetricHdr → List ℕ
tags t =
    codes "int_telemetry,srcip="
    ++ t.src_ip
    ++ codes ",dstip="
    ++ t.dst_ip
    ++ codes ",srcp="
    ++ show_ℕ t.src_port
    ++ codes ",dstp="
    ++ show_ℕ t.dst_port
    ++ codes ",protocol="
    ++ show_ℕ t.protocol

unfoldable pub flow_line : List ℕ → TelemetricHdr → List ℕ
flow_line tmp t =
    tmp
    ++ codes " origts="
    ++ show_ℕ t.orig_ts
    ++ codes ",dstts="
    ++ show_ℕ t.dst_ts
    ++ codes ",seq="
    ++ show_ℕ t.seq_num
    ++ codes ",delay="
    ++ show_ℕ t.delay
    ++ codes ",sink_jitter="
    ++ show_ℕ t.sink_jitter
    ++ codes ",reordering="
    ++ show_ℤ t.reordering
    ++ codes " "
    ++ show_ℕ t.dst_ts
    ++ codes "\n"

unfoldable pub first_line : List ℕ → TelemetricMeta → List ℕ
first_line tmp item =
    tmp
    ++ codes ",hop_index="
    ++ show_ℕ item.hop_index
    ++ codes " hop_delay="
    ++ show_ℕ item.hop_delay
    ++ codes ",hop_jitter="
    ++ show_ℕ item.hop_jitter
    ++ codes " "
    ++ show_ℕ item.hop_timestamp
    ++ codes "\n"

-- `%li` of the unsigned `hop_jitter` prints it as signed.
unfoldable pub later_line : List ℕ → TelemetricMeta → List ℕ
later_line tmp item =
    if item.hop_delay == 0
    then tmp
      ++ codes ",hop_index="
      ++ show_ℕ item.hop_index
      ++ codes " link_delay="
      ++ show_ℤ item.link_delay
      ++ codes ",hop_jitter="
      ++ show_ℤ (signed64 item.hop_jitter)
      ++ codes " "
      ++ show_ℕ item.hop_timestamp
      ++ codes "\n"
    else tmp
      ++ codes ",hop_index="
      ++ show_ℕ item.hop_index
      ++ codes " hop_delay="
      ++ show_ℕ item.hop_delay
      ++ codes ",link_delay="
      ++ show_ℤ item.link_delay
      ++ codes ",hop_jitter="
      ++ show_ℤ (signed64 item.hop_jitter)
      ++ codes " "
      ++ show_ℕ item.hop_timestamp
      ++ codes "\n"

unfoldable pub node_line : Bool → List ℕ → TelemetricMeta → List ℕ
node_line true tmp item = first_line tmp item
node_line false tmp item = later_line tmp item

-- The loop over `telemetric.node_meta`, with its variables `it`, `first` and `data`.
unfoldable pub add_nodes : List ℕ → Bool → List TelemetricMeta → ℕ → List ℕ → Outcome (ℕ × List ℕ)
add_nodes tmp first [] it text = ok (it, text)
add_nodes tmp first (item ∷ items) it text = do
  report ← sprintf (node_line first tmp item)
  add_nodes tmp false items (it + 1) (text ++ report)

-- The number of lines added, and the text with them behind it.
unfoldable pub add_report : TelemetricHdr → List ℕ → Outcome (ℕ × List ℕ)
add_report t text = do
  tmp ← sprintf (tags t)
  report ← sprintf (flow_line tmp t)
  add_nodes tmp true t.node_meta 1 (text ++ report)
