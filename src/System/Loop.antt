-- ===== src/System/Loop.antt =====
-- That the main thread of the running program runs loop_proccess.
use int_platform_dpdk.Base.{ℕ, ◌≡◌, List, false, ◌==◌}
use int_platform_dpdk.Outcome.{ok}
use int_platform_dpdk.Types.{Options, TelemetricHdr}
use int_platform_dpdk.Exporter.{IntExporter}
use int_platform_dpdk.Exporter.Start.{SenderKind}
use int_platform_dpdk.Sender.{Transport}
use int_platform_dpdk.Collector.Packets.{loop_proccess}
use int_platform_dpdk.Collector.Packets.Loop.{KeepValid}
use int_platform_dpdk.Pipeline.Inv.{Inv}
use int_platform_dpdk.System.{Event, System, events}
use int_platform_dpdk.System.Accounts.{arrivals}
use int_platform_dpdk.System.Rounds.{with_exporter, Agree}

module _ (stack : TelemetricHdr) (opt : Options) (kind : SenderKind) (transports : ℕ → Transport)
    (before : TelemetricHdr) (on : (opt.host_valid == 0) ≡ false) where
  -- The loop's part of a run of the program, the exporter being `e` when the last round ended.
  record Looped (xs : List Event) (s : System) (e : IntExporter) : Type 0 where
    final : System
    left : IntExporter
    senders : ℕ → IntExporter → IntExporter
    kept : KeepValid senders
    runs : events stack opt kind transports before xs s ≡ ok final
    loops :
        (others : ℕ → IntExporter → IntExporter)
        → Agree s.world.pkt_cnt others senders
        → loop_proccess others stack opt (arrivals xs) s.buffer (with_exporter e s.world)
          ≡ ok (final.returned, with_exporter left final.world)
