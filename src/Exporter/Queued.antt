-- ===== src/Exporter/Queued.antt =====
-- How many reports the rings hold, and how sendData changes it.
use native.Mathlib.Nat.{add-zero}
use int_platform_dpdk.Base.{
  ℕ, zero, suc, ◌+◌, ◌≡◌, sym, ap, ◌∙◌, if◌then◌else◌, List, [], ◌∷◌, Bool, true, false, arith,
  length, length-snoc, get_elem?, set, some,
}
use int_platform_dpdk.Outcome.{ok}
use int_platform_dpdk.Types.{TelemetricHdr}
use int_platform_dpdk.Ring.Window.{contents}
use int_platform_dpdk.Exporter.{IntExporter, Buffered, ring_buffer_size, send_data}
use int_platform_dpdk.Exporter.State.{IsValid}
use int_platform_dpdk.Exporter.RoundRobin.{Stored, Sent, send_data-Sent}

unfoldable pub ring_total : List Buffered → ℕ
ring_total [] = 0
ring_total (r ∷ rings) = length (contents ring_buffer_size r) + ring_total rings

-- All reports that wait in the exporter's rings.
unfoldable pub queued : IntExporter → ℕ
queued e = ring_total e.ring_buffs

ring_total-set :
    (rings : List Buffered) (i : ℕ) (r r' : Buffered)
    → get_elem? rings i ≡ some r
    → ring_total (set rings i r') + length (contents ring_buffer_size r)
      ≡ ring_total rings + length (contents ring_buffer_size r')
unfolding ring_total
ring_total-set [] i r r' h = cc
ring_total-set (q ∷ rings) zero r r' h = let e : q ≡ r = cc in rw e (omega arith)
ring_total-set (q ∷ rings) (suc i) r r' h = omega (arith, ring_total-set rings i r r' h)

queued-Stored :
    (e : IntExporter) (t : TelemetricHdr) (e' : IntExporter)
    → Stored e t e'
    → queued e' ≡ queued e + 1
unfolding queued
queued-Stored e t e' s = rw (s.written) (
    omega (
      arith,
      ring_total-set e.ring_buffs e'.rr_index s.before s.after s.chosen,
      ap length s.queued,
      length-snoc (contents ring_buffer_size s.before) t,
    ))

-- What a call of sendData leaves waiting: one report more if it returns success, as many otherwise.
pub queued-send_data :
    (e : IntExporter) (t : TelemetricHdr)
    → IsValid e
    → (sent : Bool) × (e' : IntExporter) × (send_data e t ≡ ok (sent, e'))
      × IsValid e'
      × (queued e' ≡ queued e + (if sent then 1 else 0))
unfolding queued
queued-send_data e t v =
    let (res, runs, valid, result) = send_data-Sent e t v in by_case res runs valid result
  where
    by_case :
        (res : Bool × IntExporter)
        → send_data e t ≡ ok res
        → IsValid res.1
        → Sent e t res
        → (sent : Bool) × (e' : IntExporter) × (send_data e t ≡ ok (sent, e'))
          × IsValid e'
          × (queued e' ≡ queued e + (if sent then 1 else 0))
    by_case (true, e') runs valid s = (true, e', runs, valid, queued-Stored e t e' s)
    by_case (false, e') runs valid (same, full) =
        (false, e', runs, valid, ap ring_total same ∙ sym (add-zero (ring_total e.ring_buffs)))
