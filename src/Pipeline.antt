-- ===== src/Pipeline.antt =====
-- int_t4p4s_dpdk/p4int_influxdb/p4_influxdb.cc as a whole: the exporter, its rings and the sender
-- threads, which run beside the thread that calls sendData. A run is a sequence of turns: a call of
-- sendData, or one poll of a sender with what it does up to the next. (Each turn is taken whole: Ring/Spsc
-- takes apart the calls of push and pop, the only ones that meet on shared memory.)
pub mod Inv
pub mod Turns
pub mod Polls
pub mod Accounts
pub mod Append
pub mod Fit
pub mod Drain
pub mod Prompt
pub mod Delivery
pub mod Tests
use int_platform_dpdk.Base.{
  ℕ, ◌+◌, List, [], ◌∷◌, ◌++◌, Bool, Option, none, some, get_elem?, set, update, if◌then◌else◌,
}
use int_platform_dpdk.Outcome.{Outcome, ok, ◌>>=◌}
use int_platform_dpdk.Types.{Options, TelemetricHdr}
use int_platform_dpdk.Ring.{pop}
use int_platform_dpdk.Exporter.{IntExporter, Buffered, ring_buffer_size, send_data}
use int_platform_dpdk.Exporter.Start.{SenderKind, by_udp, by_http}
use int_platform_dpdk.Sender.{Transport, SenderState, idle, udp_take, http_wait, http_take}

pub data Turn : Type 0 where
  exported : TelemetricHdr → Turn
  polled : ℕ → Turn

-- The shared exporter, and by the number of a ring its thread's variables. The last three are the
-- history: the reports that sendData took, each with its ring; how many it refused; and the reports
-- that each thread popped.
pub record Threads : Type 0 where
  pub exporter : IntExporter
  pub senders : ℕ → SenderState
  pub accepted : List (ℕ × TelemetricHdr)
  pub refused : ℕ
  pub popped : ℕ → List TelemetricHdr

abbrev pub started : IntExporter → Threads
started e = record {
  exporter = e;
  senders = λ i. idle;
  accepted = [];
  refused = 0;
  popped = λ i. [];
}

-- `transports i` is the socket of thread `i`; `before` is what the variable `telemetric` holds before
-- `pop` writes it.
module _ (opt : Options) (kind : SenderKind) (transports : ℕ → Transport)
    (before : TelemetricHdr) where
  -- What the thread does with a popped report, and with an empty ring.
  unfoldable pub take_report : ℕ → TelemetricHdr → SenderState → Outcome SenderState
  take_report i t s = elim kind [
    | by_udp ↦ udp_take opt (transports i) i t s
    | by_http ↦ http_take opt (transports i) t s
  ]

  unfoldable pub wait_for : ℕ → SenderState → SenderState
  wait_for i s = elim kind [ by_udp ↦ s | by_http ↦ http_wait opt (transports i) s ]

  unfoldable pub poll_ring : ℕ → Buffered → Threads → Outcome Threads
  unfolding take_report wait_for
  poll_ring i r p =
      let (got, t, r') = pop ring_buffer_size r before in
      if got
      then (take_report i t (p.senders i) >>= λ s. ok (record p {
        exporter = record (p.exporter) { ring_buffs = set (p.exporter.ring_buffs) i r' };
        senders = update p.senders i s;
        popped = update p.popped i (p.popped i ++ (t ∷ []));
      }))
      else ok (record p { senders = update p.senders i (wait_for i (p.senders i)) })

  -- There is no thread without a ring.
  unfoldable pub turn : Turn → Threads → Outcome Threads
  unfolding poll_ring
  turn (exported t) p = send_data p.exporter t >>= λ r.
      let (sent, e) = r in
      ok (
        if sent
        then record p { exporter = e; accepted = p.accepted ++ ((e.rr_index, t) ∷ []) }
        else record p { exporter = e; refused = p.refused + 1 })
  turn (polled i) p = elim (get_elem? p.exporter.ring_buffs i) [
    | none ↦ ok p
    | some r ↦ poll_ring i r p
  ]

  unfoldable pub turns : List Turn → Threads → Outcome Threads
  turns [] p = ok p
  turns (t ∷ ts) p = turn t p >>= turns ts
