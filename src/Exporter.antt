-- ===== src/Exporter.antt =====
-- int_t4p4s_dpdk/p4int_influxdb/p4_influxdb.cc, class IntExporter: one ring for each sender thread,
-- filled in turn. The threads that empty the rings are in Sender.
pub mod State
pub mod RoundRobin
pub mod Queued
pub mod Start
pub mod Fresh
pub mod Tests
use int_platform_dpdk.Base.{
  ℕ, zero, suc, ◌+◌, ◌%◌, List, [], ◌∷◌, ◌++◌, Bool, true, false, Option, none, some, get_elem?,
  set, if◌then◌else◌,
}
use int_platform_dpdk.Outcome.{Outcome, ok, fault, out_of_bounds, ◌>>=◌}
use int_platform_dpdk.Words.{u32}
use int_platform_dpdk.Types.{TelemetricHdr, Options}
use int_platform_dpdk.Ring.{Ring, push, empty}

-- `RING_BUFFER_SIZE`.
abbrev pub ring_buffer_size : ℕ
ring_buffer_size = 1000000

abbrev pub Buffered : Type 0
Buffered = Ring TelemetricHdr

pub record IntExporter : Type 0 where
  pub th_num : ℕ
  pub ring_buffs : List Buffered
  pub rr_index : ℕ

-- `m_ring_buffs[i]`.
unfoldable pub ring_at : List Buffered → ℕ → Outcome Buffered
ring_at rings i = elim (get_elem? rings i) [ none ↦ fault out_of_bounds | some r ↦ ok r ]

-- The loop of `sendData`, with the rounds left. `true` is EXIT_SUCCESS.
unfoldable pub send_loop : ℕ → IntExporter → TelemetricHdr → Outcome (Bool × IntExporter)
send_loop zero e telemetric = ok (false, e)
send_loop (suc rounds) e telemetric =
    let index = u32 (e.rr_index + 1) % e.th_num in
    let moved = record e { rr_index = index } in
    let rest = send_loop rounds moved telemetric in
    ring_at e.ring_buffs index >>= λ r.
    let (pushed, r') = push ring_buffer_size r telemetric in
    if pushed then ok (true, record moved { ring_buffs = set e.ring_buffs index r' }) else rest

unfoldable pub send_data : IntExporter → TelemetricHdr → Outcome (Bool × IntExporter)
send_data e telemetric = send_loop e.th_num e telemetric
