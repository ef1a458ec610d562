-- ===== src/System/Simulation.antt =====
-- The running program, seen from the senders' threads.
use int_platform_dpdk.Base.{
  ℕ, ◌+◌, ◌^◌, ◌<◌, ◌≡◌, refl, sym, ap, subst, ◌∙◌, List, [], ◌∷◌, ◌++◌, length, false, none, some,
  ◌==◌, if◌then◌else◌, arith, Bool-cases, inl, inr,
}
use int_platform_dpdk.Outcome.{ok, fault, ◌>>=◌}
use int_platform_dpdk.Types.{Options, TelemetricHdr, ret_ok}
use int_platform_dpdk.Packet.{Buffer}
use int_platform_dpdk.Sender.{Transport}
use int_platform_dpdk.Sender.Lossless.{AllAddresses}
use int_platform_dpdk.Sender.Decoded.{AllReportsFit}
use int_platform_dpdk.Exporter.Start.{SenderKind}
use int_platform_dpdk.Collector.Packets.{World, Arrival, received}
use int_platform_dpdk.Collector.Packets.Once.{sampled}
use int_platform_dpdk.Collector.Packets.Process.{IsSafe}
use int_platform_dpdk.Collector.Packets.Exported.{report_of-HasAddresses}
use int_platform_dpdk.Collector.Packets.Readable.{report_of_fits}
use int_platform_dpdk.Collector.Packets.Loop.{AllSafe}
use int_platform_dpdk.Pipeline.{Turn, exported, polled, turns}
use int_platform_dpdk.Pipeline.Inv.{Inv, exports}
use int_platform_dpdk.Pipeline.Polls.{poll_turn}
use int_platform_dpdk.Pipeline.Append.{turns-append}
use int_platform_dpdk.System.{Event, arrived, poll, System, threads_of, event, events}
use int_platform_dpdk.System.Steps.{waited, waited_same, Rounded, round_lem}
use int_platform_dpdk.System.Accounts.{arrivals, ignored, entered}
use int_platform_dpdk.System.Trace.{calls, turns_for, trace, threads_ext, calls_lem}

-- The polls among the events, and among the turns.
abbrev pub pollers : List Event → List ℕ
pollers [] = []
pollers (arrived a ∷ xs) = pollers xs
pollers (poll i ∷ xs) = i ∷ pollers xs

abbrev pub polled_by : List Turn → List ℕ
polled_by [] = []
polled_by (exported t ∷ ts) = polled_by ts
polled_by (polled i ∷ ts) = i ∷ polled_by ts

-- Every report of the turns can be written and read back, and the polls are those of the events.
pub record Follows (xs : List Event) (ts : List Turn) : Type 0 where
  pub addresses : AllAddresses (exports ts)
  pub fits : AllReportsFit (exports ts)
  pub polls : polled_by ts ≡ pollers xs

module _ (stack : TelemetricHdr) (opt : Options) (kind : SenderKind) (transports : ℕ → Transport)
    (before : TelemetricHdr) where
  -- What is shown of some events: where they lead, and that their turns lead the threads there.
  abbrev Simulated : List Event → System → Type 0
  Simulated xs s =
      (s' : System) × (events stack opt kind transports before xs s ≡ ok s')
      × (turns opt kind transports before (trace stack opt kind transports before xs s)
            (threads_of s)
          ≡ ok (threads_of s'))
      × Follows xs (trace stack opt kind transports before xs s)

  calls-Follows :
      (buff : Buffer) (w : World) (a : Arrival) (xs : List Event) (ts : List Turn)
      → IsSafe opt buff
      → Follows xs ts
      → Follows (arrived a ∷ xs) (calls stack opt buff w ++ ts)
  unfolding calls
  calls-Follows buff w a xs ts safe f = elim (Bool-cases (sampled opt w)) [
    | inl due ↦ rw (due) (record {
      addresses = (report_of-HasAddresses stack buff opt w, f.addresses);
      fits = (report_of_fits stack buff opt w safe.bytes, f.fits);
      polls = f.polls;
    })
    | inr skip ↦ rw (skip) (record { addresses = f.addresses; fits = f.fits; polls = f.polls })
  ]

  -- An event and the rest.
  joined :
      (x : Event) (xs : List Event) (s m : System)
      → event stack opt kind transports before x s ≡ ok m
      → turns opt kind transports before (turns_for stack opt x s) (threads_of s)
        ≡ ok (threads_of m)
      → ((ts : List Turn) → Follows xs ts → Follows (x ∷ xs) (turns_for stack opt x s ++ ts))
      → Simulated xs m
      → Simulated (x ∷ xs) s
  unfolding events trace
  joined x xs s m step here fit (s', runs, rest, fits) =
      let first : trace stack opt kind transports before (x ∷ xs) s
          ≡ turns_for stack opt x s ++ trace stack opt kind transports before xs m =
        ap
          (λ o.
            turns_for stack opt x s
            ++ (elim o [ ok s' ↦ trace stack opt kind transports before xs s' | fault why ↦ [] ]))
          step in
      (
        s',
        rw step runs,
        ap (λ ts. turns opt kind transports before ts (threads_of s)) first
            ∙ turns-append opt kind transports before (turns_for stack opt x s) _ (threads_of s)
            ∙ ap
                (λ o.
                  o
                  >>= turns opt kind transports before
                      (trace stack opt kind transports before xs m))
                here
            ∙ rest,
        subst (Follows (x ∷ xs)) (sym first) (fit _ fits),
      )

  -- A poll is a turn of the threads, and nothing else.
  pub polled_lem :
      (i : ℕ) (s : System)
      → (opt.host_valid == 0) ≡ false
      → Inv (threads_of s)
      → (m : System) × (event stack opt kind transports before (poll i) s ≡ ok m)
        × (turns opt kind transports before (turns_for stack opt (poll i) s) (threads_of s)
            ≡ ok (threads_of m))
        × Inv (threads_of m)
        × (m.world ≡ record (s.world) { exporter = m.world.exporter })
        × (m.buffer ≡ s.buffer)
        × (m.returned ≡ s.returned)
        × (m.accepted ≡ s.accepted)
  unfolding event turns_for turns
  polled_lem i s on inv =
      let (p, runs, kept, same, as_many) =
        poll_turn opt kind transports before on i (threads_of s) inv in
      let m : System = record s {
        world = record (s.world) { exporter = p.exporter };
        senders = p.senders;
        popped = p.popped;
      } in
      let ends : p ≡ threads_of m =
        threads_ext stack opt kind transports before p p.exporter same as_many in
      (
        m,
        rw runs refl,
        ap (λ o. o >>= turns opt kind transports before []) runs ∙ ap ok ends,
        subst Inv ends kept,
        refl,
        refl,
        refl,
        refl,
      )

  polled-Follows :
      (i : ℕ) (s : System) (xs : List Event) (ts : List Turn)
      → Follows xs ts
      → Follows (poll i ∷ xs) (turns_for stack opt (poll i) s ++ ts)
  unfolding turns_for
  polled-Follows i s xs ts f = record {
    addresses = f.addresses;
    fits = f.fits;
    polls = ap (λ l. i ∷ l) f.polls;
  }

  ignored-Follows :
      (a : Arrival) (s : System) (xs : List Event) (ts : List Turn)
      → s.returned ≡ some ret_ok
      → Follows xs ts
      → Follows (arrived a ∷ xs) (turns_for stack opt (arrived a) s ++ ts)
  unfolding turns_for
  ignored-Follows a s xs ts done f =
      rw done (record { addresses = f.addresses; fits = f.fits; polls = f.polls })

  none-Follows : Follows [] []
  none-Follows = record { addresses = tt; fits = tt; polls = refl }

  ignored_turns :
      (a : Arrival) (s : System) → s.returned ≡ some ret_ok → turns_for stack opt (arrived a) s ≡ []
  unfolding turns_for
  ignored_turns a s done = rw done refl

  entered_turns :
      (a : Arrival) (s : System)
      → s.returned ≡ none
      → turns_for stack opt (arrived a) s ≡ calls stack opt (received s.buffer a) (waited a s.world)
  unfolding turns_for
  entered_turns a s open_loop = rw open_loop refl

  -- A round of the loop hands its report to sendData, if it is due, and nothing else.
  round_calls :
      (a : Arrival) (s m : System)
      → s.returned ≡ none
      → Rounded stack opt a s m
      → turns opt kind transports before (turns_for stack opt (arrived a) s) (threads_of s)
        ≡ ok (threads_of m)
  round_calls a s m open_loop r =
      let (exporter, pkt_cnt, pkt_drop, stop) = waited_same stack opt a s.world in
      ap (λ ts. turns opt kind transports before ts (threads_of s)) (entered_turns a s open_loop)
      ∙ calls_lem stack opt kind transports before (received s.buffer a) (waited a s.world) r.after
          (threads_of s) (sym exporter) (sym pkt_drop) r.handed
      ∙ ap ok (sym r.threads)

  returned-Simulated :
      (xs : List Event) (s : System)
      → (opt.host_valid == 0) ≡ false
      → Inv (threads_of s)
      → s.returned ≡ some ret_ok
      → Simulated xs s
  unfolding events trace turns
  returned-Simulated [] s on inv done = (s, refl, refl, none-Follows)
  returned-Simulated (arrived a ∷ xs) s on inv done =
      let none_made = ignored_turns a s done in
      joined (arrived a) xs s s (ignored stack opt kind transports before on a s done)
        (ap (λ ts. turns opt kind transports before ts (threads_of s)) none_made)
        (λ ts f. ignored-Follows a s xs ts done f) (returned-Simulated xs s on inv done)
  returned-Simulated (poll i ∷ xs) s on inv done =
      let (m, step, here, kept, same, buff, ret, log) = polled_lem i s on inv in
      joined (poll i) xs s m step here (polled-Follows i s xs)
        (returned-Simulated xs m on kept (ret ∙ done))

  pub running-Simulated :
      (xs : List Event) (s : System)
      → (opt.host_valid == 0) ≡ false
      → Inv (threads_of s)
      → s.returned ≡ none
      → s.world.stop ≡ false
      → AllSafe opt s.buffer (arrivals xs)
      → s.world.pkt_drop + length (arrivals xs) < 2 ^ 64
      → s.world.pkt_cnt + length (arrivals xs) < 2 ^ 64
      → Simulated xs s
  unfolding events trace turns
  running-Simulated [] s on inv open_loop going safe few small = (s, refl, refl, none-Follows)
  running-Simulated (poll i ∷ xs) s on inv open_loop going safe few small =
      let (m, step, here, kept, same, buff, ret, log) = polled_lem i s on inv in
      joined (poll i) xs s m step here (polled-Follows i s xs) (
        running-Simulated xs m on kept (ret ∙ open_loop) (ap (λ w. w.stop) same ∙ going)
          (subst (λ b. AllSafe opt b (arrivals xs)) (sym buff) safe)
          (omega (arith, few, ap (λ w. w.pkt_drop) same))
          (omega (arith, small, ap (λ w. w.pkt_cnt) same)))
  running-Simulated (arrived a ∷ xs) s on inv open_loop going (safe, rest) few small =
      let (m, step, r) =
        round_lem stack opt a s inv safe (omega (arith, few)) (omega (arith, small)) in
      joined (arrived a) xs s m (entered stack opt kind transports before on a s open_loop ∙ step)
        (round_calls a s m open_loop r)
        (λ ts f.
          subst (λ us. Follows (arrived a ∷ xs) (us ++ ts)) (sym (entered_turns a s open_loop))
            (calls-Follows (received s.buffer a) (waited a s.world) a xs ts safe f))
        (elim (Bool-cases m.world.stop) [
          | inl stopped ↦
              returned-Simulated xs m on r.inv
                (r.returned ∙ ap (λ b. if b then some ret_ok else none) stopped)
          | inr goes ↦
              running-Simulated xs m on r.inv
                (r.returned ∙ ap (λ b. if b then some ret_ok else none) goes) goes
                (subst (λ b. AllSafe opt b (arrivals xs)) (sym r.buffer) rest)
                (omega (arith, few, r.few)) (omega (arith, small, r.pkt_cnt))
        ])
