-- ===== src/System.antt =====
-- The running program: the main thread's loop_proccess (p4int.cc) beside the sender threads
-- (p4_influxdb.cc), which share the exporter's rings. A run is a sequence of events: a packet that
-- recvfrom returns, with the round of the loop that it goes through, or a poll of one sender.
pub mod Steps
pub mod Accounts
pub mod Rounds
pub mod Loop
pub mod Trace
pub mod Simulation
pub mod Refine
pub mod Delivery
pub mod Server
mod Tests
use int_platform_dpdk.Base.{
  ℕ, ◌+◌, List, [], ◌∷◌, ◌++◌, Bool, true, false, Option, none, some, ◌==◌, if◌then◌else◌,
}
use int_platform_dpdk.Outcome.{Outcome, ok, fault, ◌>>=◌}
use int_platform_dpdk.Words.{u64}
use int_platform_dpdk.Types.{Options, TelemetricHdr, ret_ok, ret_err}
use int_platform_dpdk.Packet.{Buffer}
use int_platform_dpdk.Exporter.{IntExporter, send_data}
use int_platform_dpdk.Exporter.Start.{SenderKind}
use int_platform_dpdk.Sender.{Transport, SenderState, idle}
use int_platform_dpdk.Collector.Packets.{
  World, Printed, packet_error, setup_stop, process_packet, Arrival, received,
}
use int_platform_dpdk.Collector.Packets.Once.{sampled}
use int_platform_dpdk.Collector.Packets.Process.{report_of, world_of}
use int_platform_dpdk.Pipeline.{Threads, polled, turn}

pub data Event : Type 0 where
  arrived : Arrival → Event
  poll : ℕ → Event

-- The main thread's globals and buffer, with what its loop has returned; and each sender's variables. The
-- last two are the history: the reports that sendData took, with their rings, and those popped.
pub record System : Type 0 where
  pub world : World
  pub buffer : Buffer
  pub returned : Option ℕ
  pub senders : ℕ → SenderState
  pub accepted : List (ℕ × TelemetricHdr)
  pub popped : ℕ → List TelemetricHdr

-- The part that the senders see.
abbrev pub threads_of : System → Threads
threads_of s = record {
  exporter = s.world.exporter;
  senders = s.senders;
  accepted = s.accepted;
  refused = s.world.pkt_drop;
  popped = s.popped;
}

module _ (stack : TelemetricHdr) (opt : Options) where
  -- For the history: the report that the packet in the buffer makes, if it is due and sendData takes it.
  unfoldable pub taken_report : Buffer → World → List (ℕ × TelemetricHdr)
  taken_report buff w =
      let hdr = report_of stack buff opt w in
      if sampled opt w
      then elim (send_data w.exporter hdr) [
        | ok (sent, e) ↦ if sent then (e.rr_index, hdr) ∷ [] else []
        | fault why ↦ []
      ]
      else []

  -- A round of the loop, from recvfrom to the next test of `stop`.
  unfoldable pub round : Arrival → System → Outcome System
  unfolding taken_report
  round a s =
      let buff = received s.buffer a in
      let w = if a.interrupted then setup_stop s.world else s.world in
      process_packet stack buff opt w >>= λ r.
      let (ret, v) = r in
      ok (
        if ret == ret_ok
        then record s {
          world = record v { pkt_cnt = u64 (v.pkt_cnt + 1) };
          buffer = buff;
          returned = if v.stop then some ret_ok else none;
          accepted = s.accepted ++ taken_report buff w;
        }
        else record s {
          world = record v { printed = v.printed ++ (packet_error ∷ []) };
          buffer = buff;
          returned = some ret_err;
          accepted = s.accepted ++ taken_report buff w;
        })

  module _ (kind : SenderKind) (transports : ℕ → Transport) (before : TelemetricHdr) where
    -- Once the loop has returned, no packet is received.
    unfoldable pub event : Event → System → Outcome System
    unfolding round
    event (arrived a) s = elim (s.returned) [ some ret ↦ ok s | none ↦ round a s ]
    event (poll i) s = turn opt kind transports before (polled i) (threads_of s) >>= λ p.
        ok (record s {
          world = record (s.world) { exporter = p.exporter };
          senders = p.senders;
          popped = p.popped;
        })

    unfoldable pub events : List Event → System → Outcome System
    events [] s = ok s
    events (x ∷ xs) s = event x s >>= events xs
