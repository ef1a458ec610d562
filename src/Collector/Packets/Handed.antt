-- ===== src/Collector/Packets/Handed.antt =====
-- What report_to_influx does with the exporter.
use int_platform_dpdk.Base.{
  ◌+◌, ◌%◌, ◌^◌, ◌<◌, ◌≡◌, refl, inl, inr, [], ◌∷◌, ◌++◌, Bool, true, false, Bool-cases, arith,
  ◌==◌, if◌then◌else◌,
}
use int_platform_dpdk.Outcome.{ok}
use int_platform_dpdk.Types.{Options, TelemetricHdr}
use int_platform_dpdk.Exporter.{IntExporter, send_data}
use int_platform_dpdk.Exporter.State
use int_platform_dpdk.Exporter.RoundRobin.{Sent, send_data-Sent}
use int_platform_dpdk.Collector.Packets.{
  World, checked_mod, count_drop, export_report, report_to_influx, telemetric,
}
use int_platform_dpdk.Collector.Packets.Once.{sampled, HasRate, checked_mod-ok}

-- A report that is not due leaves the exporter alone; one that is due is handed to sendData, and
-- counted if it is refused.
pub record Handed (opt : Options) (hdr : TelemetricHdr) (w w' : World) : Type 0 where
  pub skipped : sampled opt w ≡ false → (w'.exporter ≡ w.exporter) × (w'.pkt_drop ≡ w.pkt_drop)
  pub due :
      sampled opt w ≡ true
      → (sent : Bool) × (send_data w.exporter hdr ≡ ok (sent, w'.exporter))
        × State.IsValid w'.exporter
        × Sent w.exporter hdr (sent, w'.exporter)
        × (w'.pkt_drop ≡ w.pkt_drop + (if sent then 0 else 1))
  pub few : w'.pkt_drop < w.pkt_drop + 2
  pub pkt_cnt : w'.pkt_cnt ≡ w.pkt_cnt
  pub stop : w'.stop ≡ w.stop

module _ (opt : Options) (hdr : TelemetricHdr) (w : World) (small : w.pkt_drop + 1 < 2 ^ 64) where
  not_due : sampled opt w ≡ false → Handed opt hdr w w
  not_due none = record {
    skipped = λ h. (refl, refl);
    due = λ h. cc;
    few = omega arith;
    pkt_cnt = refl;
    stop = refl;
  }

  -- The globals after sendData has answered.
  answered : Bool → IntExporter → World
  answered sent e =
      if sent then record w { exporter = e } else count_drop (record w { exporter = e })

  answered_due :
      (sent : Bool) (e : IntExporter)
      → sampled opt w ≡ true
      → send_data w.exporter hdr ≡ ok (sent, e)
      → State.IsValid e
      → Sent w.exporter hdr (sent, e)
      → Handed opt hdr w (answered sent e)
  unfolding answered count_drop
  answered_due true e due runs v s = record {
    skipped = λ h. cc;
    due = λ h. (true, runs, v, s, omega arith);
    few = omega arith;
    pkt_cnt = refl;
    stop = refl;
  }
  answered_due false e due runs v s = record {
    skipped = λ h. cc;
    due = λ h. (false, runs, v, s, omega arith);
    few = omega arith;
    pkt_cnt = refl;
    stop = refl;
  }

  export_report-Handed :
      State.IsValid w.exporter
      → HasRate opt
      → (w' : World) × (export_report opt hdr w ≡ ok w') × Handed opt hdr w w'
  unfolding export_report sampled answered
  export_report-Handed v rate = elim (Bool-cases (opt.host_valid == 0)) [
    | inl off ↦ (w, rw off, not_due (rw off))
    | inr on ↦
        let divides : checked_mod w.pkt_cnt opt.smpl_rate ≡ ok (w.pkt_cnt % opt.smpl_rate) =
          checked_mod-ok w.pkt_cnt opt.smpl_rate (ground arith) in
        elim (Bool-cases (w.pkt_cnt % opt.smpl_rate == 0)) [
          | inl due ↦
              let ((sent, e), runs, valid, s) = send_data-Sent w.exporter hdr v in
              (
                answered sent e,
                rw (on) (rw (divides) (rw (due) (rw (runs)))),
                answered_due sent e (rw (on) (rw (due))) runs valid s,
              )
          | inr skip ↦ (w, rw (on) (rw (divides) (rw (skip))), not_due (rw (on) (rw (skip))))
        ]
  ]

  pub report_to_influx-Handed :
      State.IsValid w.exporter
      → HasRate opt
      → (w' : World) × (report_to_influx opt hdr w ≡ ok w') × Handed opt hdr w w'
  unfolding report_to_influx
  report_to_influx-Handed v rate =
      let (w', runs, h) = export_report-Handed v rate in
      elim (Bool-cases (opt.verbose == 0)) [
        | inl quiet ↦ (w', rw (runs) (rw quiet), h)
        | inr loud ↦ (
          record w' { printed = w'.printed ++ (telemetric hdr ∷ []) },
          rw (runs) (rw loud),
          record {
            skipped = h.skipped;
            due = h.due;
            few = h.few;
            pkt_cnt = h.pkt_cnt;
            stop = h.stop;
          },
        )
      ]
