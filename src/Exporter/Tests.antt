-- ===== src/Exporter/Tests.antt =====
-- The exporter with two rings.
use int_platform_dpdk.Base.{zero, suc, ◌≡◌, refl, inl, Bool, arith}
use int_platform_dpdk.Outcome.{ok}
use int_platform_dpdk.Samples.{sample_report, ring_from, two_rings}
use int_platform_dpdk.Exporter.{IntExporter, send_data}
use int_platform_dpdk.Exporter.State.{IsValid, AllValid}
use int_platform_dpdk.Exporter.RoundRobin.{Sent, send_data-Sent}

two_rings-AllValid : AllValid two_rings.ring_buffs
two_rings-AllValid zero r h =
    let e : ring_from 0 0 ≡ r = cc in
    rw (← e) (record { small = omega arith; head_in = omega arith; tail_in = omega arith })
two_rings-AllValid (suc zero) r h =
    let e : ring_from 8 7 ≡ r = cc in
    rw (← e) (record { small = omega arith; head_in = omega arith; tail_in = omega arith })
two_rings-AllValid (suc (suc i)) r h = cc

pub two_rings-IsValid : IsValid two_rings
two_rings-IsValid = record {
  small = omega arith;
  counted = refl;
  turn = inl (omega arith);
  rings = two_rings-AllValid;
}

send_data-Sent_example :
    (res : Bool × IntExporter) × (send_data two_rings sample_report ≡ ok res)
    × IsValid res.1
    × Sent two_rings sample_report res
send_data-Sent_example = send_data-Sent two_rings sample_report two_rings-IsValid
