-- ===== src/System/Refine.antt =====
-- The running program as a run of the exporter and its senders.
use int_platform_dpdk.Base.{
  ℕ, ◌^◌, ◌<◌, ◌≡◌, refl, sym, ap, subst, ◌∙◌, List, [], some, length, false, ◌==◌, arith,
}
use int_platform_dpdk.Outcome.{ok, ok-injective}
use int_platform_dpdk.Types.{Options, TelemetricHdr}
use int_platform_dpdk.Packet.{Buffer}
use int_platform_dpdk.Sender.{Transport}
use int_platform_dpdk.Exporter.{IntExporter}
use int_platform_dpdk.Exporter.State
use int_platform_dpdk.Exporter.Queued.{queued}
use int_platform_dpdk.Exporter.Start.{SenderKind, sender_kind, constructed, new_exporter}
use int_platform_dpdk.Exporter.Fresh.{threads_from, new_exporter-IsValid}
use int_platform_dpdk.Collector.Packets.Loop.{AllSafe, handled, signalled, due}
use int_platform_dpdk.Pipeline.{started, turns}
use int_platform_dpdk.Pipeline.Inv.{Inv, exports}
use int_platform_dpdk.Pipeline.Accounts.{started_Inv, turns_Inv}
use int_platform_dpdk.System.{Event, System, threads_of, events}
use int_platform_dpdk.System.Steps.{same_Inv}
use int_platform_dpdk.System.Accounts.{arrivals, boot, Progress, running}
use int_platform_dpdk.System.Trace.{trace}
use int_platform_dpdk.System.Simulation.{Follows, running-Simulated}

module _ (stack : TelemetricHdr) (opt : Options) (kind : SenderKind) (transports : ℕ → Transport)
    (before : TelemetricHdr) (on : (opt.host_valid == 0) ≡ false) where
  pub boot_Inv :
      (e : IntExporter) (buff : Buffer)
      → State.IsValid e
      → queued e ≡ 0
      → Inv (threads_of (boot e buff))
  boot_Inv e buff valid none_queued =
      same_Inv (started e) e [] 0 (started_Inv e valid none_queued) refl refl

  -- What is shown of the program at an exporter that is made.
  pub record Refined (xs : List Event) (e : IntExporter) (buff : Buffer) (s : System) : Type 0 where
    pub runs : events stack opt kind transports before xs (boot e buff) ≡ ok s
    pub turns :
        turns opt kind transports before
          (trace stack opt kind transports before xs (boot e buff))
          (started e)
        ≡ ok (threads_of s)
    pub follows : Follows xs (trace stack opt kind transports before xs (boot e buff))
    pub called :
        length (exports (trace stack opt kind transports before xs (boot e buff)))
        ≡ due opt 0 (handled (arrivals xs))

  pub boot-Refined :
      (e : IntExporter) (buff : Buffer) (xs : List Event)
      → State.IsValid e
      → queued e ≡ 0
      → AllSafe opt buff (arrivals xs)
      → length (arrivals xs) < 2 ^ 64
      → (s : System) × Refined xs e buff s
        × Progress opt (boot e buff) s (handled (arrivals xs)) (signalled (arrivals xs))
  boot-Refined e buff xs valid none_queued safe few =
      let inv = boot_Inv e buff valid none_queued in
      let (s, runs, turned, follows) =
        running-Simulated stack opt kind transports before xs (boot e buff) on inv refl refl safe
          (omega arith) (omega arith) in
      let (s', runs', p) =
        running stack opt kind transports before on xs (boot e buff) inv refl refl safe
          (omega arith) (omega arith) in
      let same : s' ≡ s = ok-injective (sym runs' ∙ runs) in
      let (q, turned', kept, count) =
        turns_Inv opt kind transports before on
          (trace stack opt kind transports before xs (boot e buff)) (started e)
          (started_Inv e valid none_queued) follows.addresses in
      let ends : q ≡ threads_of s' =
        ok-injective (sym turned' ∙ turned) ∙ ap threads_of (sym same) in
      (
        s,
        record {
          runs = runs;
          turns = turned;
          follows = follows;
          called =
              omega (
                arith,
                count,
                p.counted,
                ap (λ x. length x.accepted) ends,
                ap (λ x. x.refused) ends,
              );
        },
        subst (λ x. Progress opt (boot e buff) x (handled (arrivals xs)) (signalled (arrivals xs)))
            same p,
      )

  -- With a host, a protocol that is known and any number of rings in 32 bits, over any events with fewer
  -- than 2 ^ 64 packets that are all safe: main's exporter is made, and the program runs without a
  -- fault. Its run is one of the exporter and its senders alone: the calls of sendData and the polls
  -- that the events come to, in their order, lead from the started exporter without a fault to just
  -- the rings, senders, log and count of drops that the program ends with. The polls among them are those
  -- of the events, and the calls, whose reports have addresses and numbers that can be written and
  -- read back, are as many as the reports due of the packets up to the signal.
  pub events-Refined :
      (cells : ℕ → TelemetricHdr) (buff : Buffer) (xs : List Event)
      → sender_kind opt.protocol ≡ some kind
      → opt.raw_buffer < 2 ^ 32
      → AllSafe opt buff (arrivals xs)
      → length (arrivals xs) < 2 ^ 64
      → (e : IntExporter) × (s : System) × (new_exporter cells opt
          ≡ constructed e (threads_from kind 0 opt.raw_buffer))
        × Refined xs e buff s
  events-Refined cells buff xs known small safe few =
      let (e, made, valid, many, none_queued) = new_exporter-IsValid cells opt kind known small in
      let (s, r, p) = boot-Refined e buff xs valid none_queued safe few in (e, s, made, r)
