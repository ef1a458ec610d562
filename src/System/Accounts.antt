-- ===== src/System/Accounts.antt =====
-- The running program over any sequence of events, from its start on.
use mathlib.Core.List.{flatten}
use int_platform_dpdk.Base.{
  ℕ, suc, ◌+◌, ◌^◌, ◌<◌, ◌≡◌, refl, sym, ap, subst, ◌∙◌, List, [], ◌∷◌, ◌++◌, length, Bool, true,
  false, ◌||◌, none, some, ◌==◌, if◌then◌else◌, get_elem?, arith, Bool-cases, inl, inr,
}
use int_platform_dpdk.Outcome.{ok}
use int_platform_dpdk.Types.{Options, TelemetricHdr, ret_ok}
use int_platform_dpdk.Packet.{Buffer}
use int_platform_dpdk.Ring.Window.{contents}
use int_platform_dpdk.Exporter.{IntExporter, Buffered, ring_buffer_size}
use int_platform_dpdk.Exporter.Start.{SenderKind, sender_kind, constructed, new_exporter}
use int_platform_dpdk.Exporter.Fresh.{threads_from, new_exporter-IsValid}
use int_platform_dpdk.Sender.{Transport, idle}
use int_platform_dpdk.Sender.Blocks.{Blocks, produced-Blocks}
use int_platform_dpdk.Sender.Lossless.{report_text}
use int_platform_dpdk.Collector.Packets.{initial, Arrival}
use int_platform_dpdk.Collector.Packets.Once.{sampled}
use int_platform_dpdk.Collector.Packets.Loop.{AllSafe, handled, signalled, due, due-suc}
use int_platform_dpdk.Pipeline.{started}
use int_platform_dpdk.Pipeline.Inv.{Inv, routed}
use int_platform_dpdk.Pipeline.Polls.{poll_turn}
use int_platform_dpdk.Pipeline.Accounts.{started_Inv}
use int_platform_dpdk.System.{Event, arrived, poll, System, threads_of, round, event, events}
use int_platform_dpdk.System.Steps.{same_Inv, Rounded, round_lem}

-- The arrivals among the events.
abbrev pub arrivals : List Event → List Arrival
arrivals [] = []
arrivals (arrived a ∷ xs) = a ∷ arrivals xs
arrivals (poll i ∷ xs) = arrivals xs

-- The program when main has made the exporter.
abbrev pub boot : IntExporter → Buffer → System
boot e buff = record {
  world = initial e;
  buffer = buff;
  returned = none;
  senders = λ i. idle;
  accepted = [];
  popped = λ i. [];
}

-- What `n` packets leave.
pub record Progress (opt : Options) (s s' : System) (n : ℕ) (ended : Bool) : Type 0 where
  pub inv : Inv (threads_of s')
  pub pkt_cnt : s'.world.pkt_cnt ≡ s.world.pkt_cnt + n
  pub counted :
      length s'.accepted + s'.world.pkt_drop
      ≡ length s.accepted + s.world.pkt_drop + due opt s.world.pkt_cnt n
  pub returned : s'.returned ≡ (if ended then some ret_ok else none)

module _ (stack : TelemetricHdr) (opt : Options) (kind : SenderKind) (transports : ℕ → Transport)
    (before : TelemetricHdr) (on : (opt.host_valid == 0) ≡ false) where
  -- A poll leaves the main thread's part alone.
  pub poll_lem :
      (i : ℕ) (s : System)
      → Inv (threads_of s)
      → (s' : System) × (event stack opt kind transports before (poll i) s ≡ ok s')
        × Inv (threads_of s')
        × (s'.world.pkt_cnt ≡ s.world.pkt_cnt)
        × (s'.world.pkt_drop ≡ s.world.pkt_drop)
        × (s'.world.stop ≡ s.world.stop)
        × (s'.buffer ≡ s.buffer)
        × (s'.accepted ≡ s.accepted)
        × (s'.returned ≡ s.returned)
  unfolding event
  poll_lem i s inv =
      let (p, runs, kept, same, as_many) =
        poll_turn opt kind transports before on i (threads_of s) inv in
      (
        record s {
          world = record (s.world) { exporter = p.exporter };
          senders = p.senders;
          popped = p.popped;
        },
        rw runs refl,
        same_Inv p p.exporter s.accepted s.world.pkt_drop kept refl (sym same),
        refl,
        refl,
        refl,
        refl,
        refl,
        refl,
      )

  pub ignored :
      (a : Arrival) (s : System)
      → s.returned ≡ some ret_ok
      → event stack opt kind transports before (arrived a) s ≡ ok s
  unfolding event
  ignored a s done = ground (arith, done)

  pub entered :
      (a : Arrival) (s : System)
      → s.returned ≡ none
      → event stack opt kind transports before (arrived a) s ≡ round stack opt a s
  unfolding event
  entered a s open_loop = ground (arith, open_loop)

  -- Once the loop has returned.
  after :
      (xs : List Event) (s : System)
      → Inv (threads_of s)
      → s.returned ≡ some ret_ok
      → (s' : System) × (events stack opt kind transports before xs s ≡ ok s')
        × Progress opt s s' 0 true
  unfolding events due
  after [] s inv done =
      (s, refl, record { inv = inv; pkt_cnt = omega arith; counted = omega arith; returned = done })
  after (arrived a ∷ xs) s inv done =
      let (s', runs, p) = after xs s inv done in (s', rw (ignored a s done) runs, p)
  after (poll i ∷ xs) s inv done =
      let (m, step, kept, cnt, drop, stop, buff, log, ret) = poll_lem i s inv in
      let (s', runs, p) = after xs m kept (ret ∙ done) in
      (
        s',
        rw step runs,
        record {
          inv = p.inv;
          pkt_cnt = omega (arith, p.pkt_cnt, cnt);
          counted = omega (arith, p.counted, drop, ap length log);
          returned = p.returned;
        },
      )

  last_round :
      (a : Arrival) (s m s' : System)
      → Rounded stack opt a s m
      → Progress opt m s' 0 true
      → Progress opt s s' 1 true
  unfolding due sampled
  last_round a s m s' r p = record {
    inv = p.inv;
    pkt_cnt = omega (arith, p.pkt_cnt, r.pkt_cnt);
    counted = omega (arith, p.counted, r.counted);
    returned = p.returned;
  }

  one_more :
      (a : Arrival) (s m s' : System) (n : ℕ) (ended : Bool)
      → Rounded stack opt a s m
      → Progress opt m s' n ended
      → Progress opt s s' (suc n) ended
  unfolding due sampled
  one_more a s m s' n ended r p = record {
    inv = p.inv;
    pkt_cnt = omega (arith, p.pkt_cnt, r.pkt_cnt);
    counted = omega (
      arith,
      p.counted,
      r.counted,
      due-suc opt s.world.pkt_cnt n,
      ap (λ c. due opt c n) r.pkt_cnt,
    );
    returned = p.returned;
  }

  -- While the loop runs.
  pub running :
      (xs : List Event) (s : System)
      → Inv (threads_of s)
      → s.returned ≡ none
      → s.world.stop ≡ false
      → AllSafe opt s.buffer (arrivals xs)
      → s.world.pkt_drop + length (arrivals xs) < 2 ^ 64
      → s.world.pkt_cnt + length (arrivals xs) < 2 ^ 64
      → (s' : System) × (events stack opt kind transports before xs s ≡ ok s')
        × Progress opt s s' (handled (arrivals xs)) (signalled (arrivals xs))
  unfolding events due handled signalled
  running [] s inv open_loop going safe few small = (
    s,
    refl,
    record { inv = inv; pkt_cnt = omega arith; counted = omega arith; returned = open_loop },
  )
  running (poll i ∷ xs) s inv open_loop going safe few small =
      let (m, step, kept, cnt, drop, stop, buff, log, ret) = poll_lem i s inv in
      let (s', runs, p) =
        running xs m kept (ret ∙ open_loop) (stop ∙ going)
          (subst (λ b. AllSafe opt b (arrivals xs)) (sym buff) safe) (omega (arith, few, drop))
          (omega (arith, small, cnt)) in
      (
        s',
        rw step runs,
        record {
          inv = p.inv;
          pkt_cnt = omega (arith, p.pkt_cnt, cnt);
          counted = omega (
            arith,
            p.counted,
            drop,
            ap length log,
            ap (λ c. due opt c (handled (arrivals xs))) cnt,
          );
          returned = p.returned;
        },
      )
  running (arrived a ∷ xs) s inv open_loop going (safe, rest) few small =
      let (m, step, r) =
        round_lem stack opt a s inv safe (omega (arith, few)) (omega (arith, small)) in
      let entry = entered a s open_loop ∙ step in
      elim (Bool-cases a.interrupted) [
        | inl hit ↦
            let stopped : m.world.stop ≡ true = r.stop ∙ ap (λ b. b || s.world.stop) hit in
            let (s', runs, p) =
              after xs m r.inv (r.returned ∙ ap (λ b. if b then some ret_ok else none) stopped) in
            (
              s',
              rw entry runs,
              subst
                  (λ b.
                    Progress opt s s' (if b then 1 else suc (handled (arrivals xs)))
                      (if b then true else signalled (arrivals xs)))
                  (sym hit) (last_round a s m s' r p),
            )
        | inr clear ↦
            let stop : m.world.stop ≡ false = r.stop ∙ ap (λ b. b || s.world.stop) clear ∙ going in
            let (s', runs, p) =
              running xs m r.inv (r.returned ∙ ap (λ b. if b then some ret_ok else none) stop) stop
                (subst (λ b. AllSafe opt b (arrivals xs)) (sym r.buffer) rest)
                (omega (arith, few, r.few)) (omega (arith, small, r.pkt_cnt)) in
            (
              s',
              rw entry runs,
              subst
                  (λ b.
                    Progress opt s s' (if b then 1 else suc (handled (arrivals xs)))
                      (if b then true else signalled (arrivals xs)))
                  (sym clear)
                  (one_more a s m s' (handled (arrivals xs)) (signalled (arrivals xs)) r p),
            )
      ]

-- What the running program has come to after some events.
pub record SystemAccounted (opt : Options) (xs : List Event) (s : System) : Type 0 where
  pub returned : s.returned ≡ (if signalled (arrivals xs) then some ret_ok else none)
  pub pkt_cnt : s.world.pkt_cnt ≡ handled (arrivals xs)
  pub due_reports : length s.accepted + s.world.pkt_drop ≡ due opt 0 (handled (arrivals xs))
  pub each :
      (i : ℕ) (r : Buffered)
      → get_elem? s.world.exporter.ring_buffs i ≡ some r
      → routed i s.accepted ≡ s.popped i ++ contents ring_buffer_size r
  pub text : (i : ℕ) → flatten (s.senders i).sent ++ (s.senders i).text ≡ report_text (s.popped i)
  pub blocks : (i : ℕ) → Blocks (s.senders i) (s.popped i)

-- With a host, a protocol that is known and any number of rings in 32 bits: main's exporter is made;
-- and over any events, packets between whose rounds the senders poll their rings in any order, if every
-- packet is safe (bytes, a hop length other than 0, fewer than ten hops, a sampling rate other than 0)
-- and there are fewer than 2 ^ 64 of them, nothing faults. The loop returns RET_OK if the signal came,
-- after the packet that it then waited for. Of the packets up to there, each report that is due was
-- taken by sendData or counted as dropped; the reports taken for a ring, which are those read off the
-- packets, are in order those that its sender popped and those that it holds; and what a sender has
-- handed to its socket, followed by what it still holds, is the text of those that it popped; each
-- single text that it handed over being that of at least one whole report.
pub events-SystemAccounted :
    (stack : TelemetricHdr) (opt : Options) (kind : SenderKind) (transports : ℕ → Transport)
    (before : TelemetricHdr) (cells : ℕ → TelemetricHdr) (buff : Buffer) (xs : List Event)
    → (opt.host_valid == 0) ≡ false
    → sender_kind opt.protocol ≡ some kind
    → opt.raw_buffer < 2 ^ 32
    → AllSafe opt buff (arrivals xs)
    → length (arrivals xs) < 2 ^ 64
    → (e : IntExporter) × (s : System) × (new_exporter cells opt
        ≡ constructed e (threads_from kind 0 opt.raw_buffer))
      × (events stack opt kind transports before xs (boot e buff) ≡ ok s)
      × SystemAccounted opt xs s
events-SystemAccounted stack opt kind transports before cells buff xs on known narrow safe few =
    let (e, made, valid, many, none_queued) = new_exporter-IsValid cells opt kind known narrow in
    let (s, runs, p) =
      running stack opt kind transports before on xs (boot e buff)
        (same_Inv (started e) e [] 0 (started_Inv e valid none_queued) refl refl) refl refl safe
        (omega arith) (omega arith) in
    (
      e,
      s,
      made,
      runs,
      record {
        returned = p.returned;
        pkt_cnt = omega (arith, p.pkt_cnt);
        due_reports = omega (arith, p.counted);
        each = p.inv.fifo;
        text = λ i. produced-Blocks (s.senders i) (s.popped i) (p.inv.blocks i);
        blocks = p.inv.blocks;
      },
    )
