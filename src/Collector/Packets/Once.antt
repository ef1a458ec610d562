-- ===== src/Collector/Packets/Once.antt =====
-- One packet: when it is processed without a fault, and what becomes of its report.
use int_platform_dpdk.Base.{
  ℕ, ◌+◌, ◌/◌, ◌%◌, ◌^◌, ◌<◌, ◌≤◌, ◌≡◌, refl, ◌⊎◌, inl, inr, [], ◌∷◌, ◌++◌, Bool, true, false, not,
  ◌&&◌, Bool-cases, arith, ◌==◌, if◌then◌else◌,
}
use int_platform_dpdk.Outcome.{ok}
use int_platform_dpdk.Words.{u8}
use int_platform_dpdk.Types.{Options, TelemetricHdr}
use int_platform_dpdk.Packet.{Buffer}
use int_platform_dpdk.Packet.Fields.{le_at}
use int_platform_dpdk.Exporter.{IntExporter}
use int_platform_dpdk.Exporter.State
use int_platform_dpdk.Exporter.Queued.{queued, queued-send_data}
use int_platform_dpdk.Collector.Packets.{
  World, checked_mod, checked_div, count_drop, export_report, report_to_influx, telemetric,
}

-- The number of hops that a packet announces: `meta_len / hop_meta_len`, in eight bits.
unfoldable pub hops : Buffer → ℕ
hops buff = u8 (le_at 1 buff 26 / le_at 1 buff 27)

pub checked_mod-ok : (a b : ℕ) → 0 < b → checked_mod a b ≡ ok (a % b)
unfolding checked_mod
checked_mod-ok a b h = ground arith

pub checked_div-ok : (a b : ℕ) → 0 < b → checked_div a b ≡ ok (a / b)
unfolding checked_div
checked_div-ok a b h = ground arith

-- A report is due for the host: every `smpl_rate`-th packet.
unfoldable pub sampled : Options → World → Bool
sampled opt w = not (opt.host_valid == 0) && (w.pkt_cnt % opt.smpl_rate == 0)

-- The sampling rate is one that the program can divide by, if it has to.
abbrev pub HasRate : Options → Type 0
HasRate opt = (opt.host_valid ≡ 0) ⊎ (0 < opt.smpl_rate)

-- What the exporter and the counters are after a report.
pub record Reported (opt : Options) (w w' : World) : Type 0 where
  pub valid : State.IsValid w'.exporter
  pub pkt_cnt : w'.pkt_cnt ≡ w.pkt_cnt
  pub stop : w'.stop ≡ w.stop
  pub flow_map : w'.flow_map ≡ w.flow_map
  pub prev_timestamps : w'.prev_timestamps ≡ w.prev_timestamps
  pub counted :
      queued w'.exporter + w'.pkt_drop
      ≡ queued w.exporter + w.pkt_drop + (if sampled opt w then 1 else 0)
  pub few : w'.pkt_drop ≤ w.pkt_drop + 1

unreported :
    (opt : Options) (w : World)
    → State.IsValid w.exporter
    → sampled opt w ≡ false
    → Reported opt w w
unreported opt w v none = record {
  valid = v;
  pkt_cnt = refl;
  stop = refl;
  flow_map = refl;
  prev_timestamps = refl;
  counted = rw none (omega arith);
  few = omega arith;
}

-- The globals after sendData has returned.
stored : World → Bool → IntExporter → World
stored w sent e = if sent then record w { exporter = e } else count_drop (record w { exporter = e })

stored-Reported :
    (opt : Options) (w : World) (sent : Bool) (e : IntExporter)
    → State.IsValid e
    → sampled opt w ≡ true
    → w.pkt_drop + 1 < 2 ^ 64
    → queued e ≡ queued w.exporter + (if sent then 1 else 0)
    → Reported opt w (stored w sent e)
unfolding stored count_drop
stored-Reported opt w true e v due small count = record {
  valid = v;
  pkt_cnt = refl;
  stop = refl;
  flow_map = refl;
  prev_timestamps = refl;
  counted = rw due (omega (arith, count));
  few = omega arith;
}
stored-Reported opt w false e v due small count = record {
  valid = v;
  pkt_cnt = refl;
  stop = refl;
  flow_map = refl;
  prev_timestamps = refl;
  counted = rw due (omega (arith, count));
  few = omega arith;
}

export_report-Reported :
    (opt : Options) (hdr : TelemetricHdr) (w : World)
    → State.IsValid w.exporter
    → HasRate opt
    → w.pkt_drop + 1 < 2 ^ 64
    → (w' : World) × (export_report opt hdr w ≡ ok w') × Reported opt w w'
unfolding export_report sampled stored
export_report-Reported opt hdr w v rate small = elim (Bool-cases (opt.host_valid == 0)) [
  | inl off ↦ (w, rw off, unreported opt w v (rw off))
  | inr on ↦
      let divides : checked_mod w.pkt_cnt opt.smpl_rate ≡ ok (w.pkt_cnt % opt.smpl_rate) =
        checked_mod-ok w.pkt_cnt opt.smpl_rate (ground arith) in
      elim (Bool-cases (w.pkt_cnt % opt.smpl_rate == 0)) [
        | inl due ↦
            let (sent, e, runs, valid, count) = queued-send_data w.exporter hdr v in
            (
              stored w sent e,
              rw (on) (rw (divides) (rw (due) (rw (runs)))),
              stored-Reported opt w sent e valid (rw (on) (rw (due))) small count,
            )
        | inr skip ↦
            (w, rw (on) (rw (divides) (rw (skip))), unreported opt w v (rw (on) (rw (skip))))
      ]
]

-- On a valid exporter and with a sampling rate to divide by, report_to_influx ends without a fault;
-- the flow table and the array of timestamps are as they were, and of the reports that are due each
-- is either in a ring or counted as dropped.
pub report_to_influx-Reported :
    (opt : Options) (hdr : TelemetricHdr) (w : World)
    → State.IsValid w.exporter
    → HasRate opt
    → w.pkt_drop + 1 < 2 ^ 64
    → (w' : World) × (report_to_influx opt hdr w ≡ ok w') × Reported opt w w'
unfolding report_to_influx
report_to_influx-Reported opt hdr w v rate small =
    let (w', runs, r) = export_report-Reported opt hdr w v rate small in
    elim (Bool-cases (opt.verbose == 0)) [
      | inl quiet ↦ (w', rw (runs) (rw quiet), r)
      | inr loud ↦ (
        record w' { printed = w'.printed ++ (telemetric hdr ∷ []) },
        rw (runs) (rw loud),
        record {
          valid = r.valid;
          pkt_cnt = r.pkt_cnt;
          stop = r.stop;
          flow_map = r.flow_map;
          prev_timestamps = r.prev_timestamps;
          counted = r.counted;
          few = r.few;
        },
      )
    ]
