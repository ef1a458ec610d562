-- ===== src/Collector/Packets.antt =====
-- p4int.cc: report_to_influx, process_packet, loop_proccess and setup_stop, over the globals of the
-- program. What the program prints is a list of events.
pub mod Once
pub mod Process
pub mod Loop
pub mod Handed
pub mod Exported
pub mod Readable
use int_platform_dpdk.Base.{
  ℕ, ◌+◌, ◌-◌, ◌*◌, ◌/◌, ◌%◌, ◌^◌, List, [], ◌∷◌, ◌++◌, Bool, true, false, Option, none, some, not,
  ◌&&◌, ltb, ◌==◌, if◌then◌else◌,
}
use int_platform_dpdk.Outcome.{Outcome, ok, fault, div_by_zero, ◌>>=◌}
use int_platform_dpdk.Words.{u8, u64}
use int_platform_dpdk.Types.{Options, TelemetricHdr, ret_ok, ret_err}
use int_platform_dpdk.Packet.{Buffer, pkt_buf_size, load_le, load_int_influx, int_influx_size}
use int_platform_dpdk.Exporter.{IntExporter, send_data}
use int_platform_dpdk.Collector.Header.{FlowMap, get_int_header_data}
use int_platform_dpdk.Collector.Nodes.{Timestamps, get_int_node_data}

-- What goes to the standard output.
pub data Printed : Type 0 where
  dropped : ℕ → Printed  -- the running count, at every thousandth
  telemetric : TelemetricHdr → Printed  -- print_telemetric
  totals : ℕ → ℕ → Printed  -- the counts that setup_stop prints
  packet_error : Printed

-- The globals, and the exporter that `main` passes along.
pub record World : Type 0 where
  pub prev_timestamps : Timestamps
  pub pkt_cnt : ℕ
  pub pkt_drop : ℕ
  pub stop : Bool
  pub flow_map : FlowMap
  pub exporter : IntExporter
  pub printed : List Printed

-- `a % b` and `a / b` of unsigned numbers.
unfoldable pub checked_mod : ℕ → ℕ → Outcome ℕ
checked_mod a b = if b == 0 then fault div_by_zero else ok (a % b)

unfoldable pub checked_div : ℕ → ℕ → Outcome ℕ
checked_div a b = if b == 0 then fault div_by_zero else ok (a / b)

-- The signal handler.
unfoldable pub setup_stop : World → World
setup_stop w = record w { stop = true; printed = w.printed ++ (totals w.pkt_cnt w.pkt_drop ∷ []) }

-- A report that no ring took is counted.
unfoldable pub count_drop : World → World
count_drop w =
    let n = u64 (w.pkt_drop + 1) in
    record w {
      pkt_drop = n;
      printed = if n % 1000 == 0 && not (n == 0) then w.printed ++ (dropped n ∷ []) else w.printed;
    }

-- The first half of report_to_influx: `opt.hostValid && (pkt_cnt % opt.smpl_rate == 0)`, in which
-- the division is made only for a valid host.
unfoldable pub export_report : Options → TelemetricHdr → World → Outcome World
unfolding checked_mod count_drop
export_report opt hdr w =
    if opt.host_valid == 0
    then ok w
    else checked_mod w.pkt_cnt opt.smpl_rate >>= λ phase.
        if phase == 0
        then (send_data w.exporter hdr >>= λ r.
            let (sent, exporter) = r in
            let w' = record w { exporter = exporter } in ok (if sent then w' else count_drop w'))
        else ok w

unfoldable pub report_to_influx : Options → TelemetricHdr → World → Outcome World
unfolding export_report
report_to_influx opt hdr w = do
  w' ← export_report opt hdr w
  ok (if opt.verbose == 0 then w' else record w' { printed = w'.printed ++ (telemetric hdr ∷ []) })

-- Behind the Ethernet header.
abbrev pub int_hdr_at : ℕ
int_hdr_at = 14

abbrev pub int_meta_hdr_at : ℕ
int_meta_hdr_at = int_hdr_at + int_influx_size

-- `& 0x0000FFFFFFFFFFFF`.
abbrev pub cut_48 : ℕ → ℕ
cut_48 ts = ts % 2 ^ 48

-- `stack` is what the uninitialised `tmpHdr` holds; its vector is constructed empty.
unfoldable pub process_packet : TelemetricHdr → Buffer → Options → World → Outcome (ℕ × World)
unfolding checked_div report_to_influx
process_packet stack buff opt w = do
  int_hdr ← load_int_influx buff int_hdr_at
  map_key ← load_le 8 buff int_hdr_at
  let (hdr, flow_map) =
      get_int_header_data (record stack { node_meta = [] }) int_hdr map_key w.flow_map
  quotient ← checked_div int_hdr.meta_len int_hdr.hop_meta_len
  (hdr', prev) ← get_int_node_data hdr buff int_meta_hdr_at (u8 quotient) w.prev_timestamps
  let cut : TelemetricHdr =
      if opt.tstmp == 1
      then record hdr' { orig_ts = cut_48 hdr'.orig_ts; dst_ts = cut_48 hdr'.dst_ts }
      else hdr'
  w' ← report_to_influx opt cut (record w { flow_map = flow_map; prev_timestamps = prev })
  ok (ret_ok, w')

-- What one call of recvfrom does: `count` bytes are written at the front of the buffer, none if the
-- call fails; `interrupted` says whether the signal came since the loop's test.
pub record Arrival : Type 0 where
  pub count : ℕ
  pub bytes : Buffer
  pub interrupted : Bool

unfoldable pub received : Buffer → Arrival → Buffer
received buff a i = if ltb i a.count && ltb i pkt_buf_size then a.bytes i else buff i

-- The globals when the program starts, with the exporter that main makes.
abbrev pub initial : IntExporter → World
initial e = record {
  prev_timestamps = λ i. 0;
  pkt_cnt = 0;
  pkt_drop = 0;
  stop = false;
  flow_map = [];
  exporter = e;
  printed = [];
}

-- During a wait the sender threads, which run beside the loop, pop reports: `senders` is what they do to
-- the exporter, by the packets that were counted before.
unfoldable pub after_wait : (ℕ → IntExporter → IntExporter) → World → World
after_wait senders w = record w { exporter = senders w.pkt_cnt w.exporter }

-- The loop, over the arrivals to come. The first part of the result is what the function returns, or
-- `none` while it still waits in recvfrom for more than these.
unfoldable pub loop_proccess :
    (ℕ → IntExporter → IntExporter)
    → TelemetricHdr
    → Options
    → List Arrival
    → Buffer
    → World
    → Outcome (Option ℕ × World)
loop_proccess senders stack opt [] buff w = ok (if w.stop then some ret_ok else none, w)
loop_proccess senders stack opt (a ∷ arrivals) buff w =
    let buff' = received buff a in
    let w' = if a.interrupted then setup_stop (after_wait senders w) else after_wait senders w in
    let rest = λ (v : World). loop_proccess senders stack opt arrivals buff' v in
    if w.stop
    then ok (some ret_ok, w)
    else process_packet stack buff' opt w' >>= λ r.
        let (ret, v) = r in
        if ret == ret_ok
        then rest (record v { pkt_cnt = u64 (v.pkt_cnt + 1) })
        else ok (some ret_err, record v { printed = v.printed ++ (packet_error ∷ []) })
