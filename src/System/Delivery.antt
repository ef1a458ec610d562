-- ===== src/System/Delivery.antt =====
-- From the packets to the points that http_sender's server can read.
use mathlib.Core.List.{flatten}
use int_platform_dpdk.Base.{
  ℕ, zero, suc, ◌+◌, ◌^◌, ◌<◌, ◌≡◌, refl, sym, ap, ap₂, subst, ◌∙◌, List, [], ◌∷◌, ◌++◌, map,
  length, false, some, get_elem?, replicate, ◌==◌, arith,
}
use int_platform_dpdk.Outcome.{ok, ok-injective, ◌>>=◌, >>=_assoc, >>=_cong}
use int_platform_dpdk.Types.{Options, TelemetricHdr}
use int_platform_dpdk.Packet.{Buffer}
use int_platform_dpdk.Ring.Window.{contents}
use int_platform_dpdk.Report.Reader.{read_points}
use int_platform_dpdk.Sender.{Transport}
use int_platform_dpdk.Sender.Lossless.{report_text}
use int_platform_dpdk.Sender.Decoded.{AllReportsFit, all_points, read_points-report_text}
use int_platform_dpdk.Sender.Blocks.{AllFilled}
use int_platform_dpdk.Exporter.{IntExporter, Buffered, ring_buffer_size}
use int_platform_dpdk.Exporter.State
use int_platform_dpdk.Exporter.Queued.{queued}
use int_platform_dpdk.Exporter.Start.{by_http, sender_kind, constructed, new_exporter}
use int_platform_dpdk.Exporter.Fresh.{threads_from, new_exporter-IsValid}
use int_platform_dpdk.Collector.Packets.Loop.{AllSafe, handled, due}
use int_platform_dpdk.Pipeline.{polled, started, turns}
use int_platform_dpdk.Pipeline.Inv.{Inv, routed}
use int_platform_dpdk.Pipeline.Append.{turns-append}
use int_platform_dpdk.Pipeline.Accounts.{started_Inv}
use int_platform_dpdk.Pipeline.Fit.{RoutedFit, turns_fit}
use int_platform_dpdk.Pipeline.Delivery.{started-Delivered, whole_blocks}
use int_platform_dpdk.System.{Event, poll, System, threads_of, event, events}
use int_platform_dpdk.System.Accounts.{arrivals, boot}
use int_platform_dpdk.System.Trace.{trace, turns_for}
use int_platform_dpdk.System.Simulation.{polled_lem}
use int_platform_dpdk.System.Refine.{boot-Refined}

AllReportsFit-split :
    (xs ys : List TelemetricHdr) → AllReportsFit (xs ++ ys) → AllReportsFit xs × AllReportsFit ys
AllReportsFit-split [] ys f = (tt, f)
AllReportsFit-split (x ∷ xs) ys (v, f) = let (fx, fy) = AllReportsFit-split xs ys f in ((v, fx), fy)

-- Each text of whole reports is read back.
read_blocks :
    (blocks : List (List TelemetricHdr))
    → AllReportsFit (flatten blocks)
    → map read_points (map report_text blocks) ≡ map (λ block. some (all_points block)) blocks
unfolding flatten
read_blocks [] f = refl
read_blocks (block ∷ blocks) f =
    let (here, rest) = AllReportsFit-split block (flatten blocks) f in
    ap₂ (λ x xs. x ∷ xs) (read_points-report_text block here) (read_blocks blocks rest)

module _ (stack : TelemetricHdr) (opt : Options) (transports : ℕ → Transport)
    (before : TelemetricHdr) (on : (opt.host_valid == 0) ≡ false) where
  events-append :
      (xs ys : List Event) (s : System)
      → events stack opt by_http transports before (xs ++ ys) s ≡ (
          events stack opt by_http transports before xs s
          >>= events stack opt by_http transports before ys)
  unfolding events
  events-append [] ys s = refl
  events-append (x ∷ xs) ys s =
      >>=_cong (event stack opt by_http transports before x s) _ _ (events-append xs ys)
      ∙ sym (
          >>=_assoc (event stack opt by_http transports before x s)
            (events stack opt by_http transports before xs)
            (events stack opt by_http transports before ys))

  -- Polls alone.
  polls_run :
      (n i : ℕ) (s : System)
      → Inv (threads_of s)
      → (s' : System) × (events stack opt by_http transports before (replicate n (poll i)) s
          ≡ ok s')
        × (turns opt by_http transports before (replicate n (polled i)) (threads_of s)
            ≡ ok (threads_of s'))
        × (s'.accepted ≡ s.accepted)
        × (s'.world.pkt_drop ≡ s.world.pkt_drop)
  unfolding events turns turns_for
  polls_run zero i s inv = (s, refl, refl, refl, refl)
  polls_run (suc n) i s inv =
      let (m, step, here, kept, same, buff, ret, log) =
        polled_lem stack opt by_http transports before i s on inv in
      let (s', runs, rest, log', drop) = polls_run n i m kept in
      (
        s',
        rw step runs,
        turns-append opt by_http transports before (polled i ∷ []) (replicate n (polled i))
              (threads_of s)
            ∙ ap (λ o. o >>= turns opt by_http transports before (replicate n (polled i))) here
            ∙ rest,
        log' ∙ log,
        drop ∙ ap (λ w. w.pkt_drop) same,
      )

  -- What has come of the packets when thread `i` has polled long enough.
  pub record Arrived (xs : List Event) (i : ℕ) (e : IntExporter) (buff : Buffer) (s : System)
      : Type 0 where
    pub runs :
        events stack opt by_http transports before
          (xs ++ replicate (ring_buffer_size + 10) (poll i))
          (boot e buff)
        ≡ ok s
    pub counted : length s.accepted + s.world.pkt_drop ≡ due opt 0 (handled (arrivals xs))
    pub ring : Buffered
    pub found : get_elem? s.world.exporter.ring_buffs i ≡ some ring
    pub nothing : contents ring_buffer_size ring ≡ []
    pub empty : (s.senders i).text ≡ []
    pub blocks : List (List TelemetricHdr)
    pub filled : AllFilled blocks
    pub sent : (s.senders i).sent ≡ map report_text blocks
    pub points : map read_points (s.senders i).sent ≡ map (λ block. some (all_points block)) blocks
    pub all : flatten blocks ≡ routed i s.accepted

  started-RoutedFit : (e : IntExporter) → RoutedFit (started e)
  unfolding routed
  started-RoutedFit e j = tt

  boot-Arrived :
      (e : IntExporter) (buff : Buffer) (xs : List Event) (i : ℕ)
      → State.IsValid e
      → queued e ≡ 0
      → i < e.th_num
      → AllSafe opt buff (arrivals xs)
      → length (arrivals xs) < 2 ^ 64
      → (s : System) × Arrived xs i e buff s
  boot-Arrived e buff xs i valid none_queued inside safe few =
      let (m, r, p) =
        boot-Refined stack opt by_http transports before on e buff xs valid none_queued safe few in
      let (s, runs, turned, log, drop) = polls_run (ring_buffer_size + 10) i m p.inv in
      let ts = trace stack opt by_http transports before xs (boot e buff) in
      let polls_of = replicate (ring_buffer_size + 10) (polled i) in
      let (q, d) =
        started-Delivered opt transports before on e ts i valid none_queued r.follows.addresses
          inside in
      let (q', turned', fit') =
        turns_fit opt by_http transports before on ts (started e) (started_Inv e valid none_queued)
          r.follows.addresses r.follows.fits (started-RoutedFit e) in
      let ends : q ≡ threads_of s = ok-injective (
        sym d.runs
        ∙ turns-append opt by_http transports before ts polls_of (started e)
        ∙ ap (λ o. o >>= turns opt by_http transports before polls_of) r.turns
        ∙ turned) in
      let middle : q' ≡ threads_of m = ok-injective (sym turned' ∙ r.turns) in
      let fit : AllReportsFit (routed i s.accepted) =
        subst (λ l. AllReportsFit (routed i l)) (ap (λ x. x.accepted) middle ∙ sym log) (fit' i) in
      let (blocks, filled, sent, all) =
        whole_blocks opt transports before on q i d.ring d.inv d.found d.nothing d.empty in
      let sent' : (s.senders i).sent ≡ map report_text blocks =
        ap (λ x. (x.senders i).sent) (sym ends) ∙ sent in
      let all' : flatten blocks ≡ routed i s.accepted = all ∙ ap (λ x. routed i x.accepted) ends in
      (
        s,
        record {
          runs =
              events-append xs (replicate (ring_buffer_size + 10) (poll i)) (boot e buff)
              ∙ ap
                  (λ o.
                    o
                    >>= events stack opt by_http transports before
                        (replicate (ring_buffer_size + 10) (poll i)))
                  r.runs
              ∙ runs;
          counted = omega (arith, p.counted, ap length log, drop);
          ring = d.ring;
          found = ap (λ x. get_elem? x.exporter.ring_buffs i) (sym ends) ∙ d.found;
          nothing = d.nothing;
          empty = ap (λ x. (x.senders i).text) (sym ends) ∙ d.empty;
          blocks = blocks;
          filled = filled;
          sent = sent';
          points =
              ap (map read_points) sent' ∙ read_blocks blocks (subst AllReportsFit (sym all') fit);
          all = all';
        },
      )

  -- With a host, the protocol "http" or "https" and any number of rings in 32 bits: after any events
  -- with fewer than 2 ^ 64 packets that are all safe, once sender `i` has polled as often as a ring has
  -- cells, and ten times more, the program, which never faulted, has in the ring and the text of `i`
  -- nothing left. Each report due of the packets up to the signal was taken by sendData or counted as
  -- dropped. The texts that sender `i` handed to its socket are those of blocks of at least one report
  -- each, which are together, in order, the reports taken for ring `i`; and a reader of the line
  -- protocol gets from each text just the points of its reports.
  pub events_deliver :
      (cells : ℕ → TelemetricHdr) (buff : Buffer) (xs : List Event) (i : ℕ)
      → sender_kind opt.protocol ≡ some by_http
      → opt.raw_buffer < 2 ^ 32
      → i < opt.raw_buffer
      → AllSafe opt buff (arrivals xs)
      → length (arrivals xs) < 2 ^ 64
      → (e : IntExporter) × (s : System) × (new_exporter cells opt
          ≡ constructed e (threads_from by_http 0 opt.raw_buffer))
        × Arrived xs i e buff s
  events_deliver cells buff xs i known small inside safe few =
      let (e, made, valid, many, none_queued) =
        new_exporter-IsValid cells opt by_http known small in
      let (s, a) =
        boot-Arrived e buff xs i valid none_queued (omega (arith, inside, many)) safe few in
      (e, s, made, a)
