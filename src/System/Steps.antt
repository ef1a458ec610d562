-- ===== src/System/Steps.antt =====
-- One event of the running program.
use int_platform_dpdk.Base.{
  ℕ, ◌+◌, ◌^◌, ◌<◌, ◌≡◌, refl, sym, ap, ap₂, subst, ◌∙◌, List, [], ◌∷◌, ◌++◌, append-nil, length,
  length-snoc, Bool, true, false, ◌||◌, none, some, if◌then◌else◌, arith, Bool-cases, inl, inr,
}
use int_platform_dpdk.Outcome.{ok}
use int_platform_dpdk.Words.{u64}
use int_platform_dpdk.Types.{Options, TelemetricHdr, ret_ok}
use int_platform_dpdk.Packet.{Buffer}
use int_platform_dpdk.Exporter.{IntExporter, send_data}
use int_platform_dpdk.Exporter.State
use int_platform_dpdk.Exporter.RoundRobin.{Sent}
use int_platform_dpdk.Collector.Packets.{World, setup_stop, process_packet, Arrival, received}
use int_platform_dpdk.Collector.Packets.Once.{sampled}
use int_platform_dpdk.Collector.Packets.Process.{IsSafe, report_of, world_of, taken_apart}
use int_platform_dpdk.Collector.Packets.Handed.{Handed, report_to_influx-Handed}
use int_platform_dpdk.Collector.Packets.Exported.{report_of-HasAddresses}
use int_platform_dpdk.Pipeline.{Threads}
use int_platform_dpdk.Pipeline.Inv.{Inv}
use int_platform_dpdk.Pipeline.Turns.{stored_Inv, refused_Inv}
use int_platform_dpdk.System.{System, threads_of, taken_report, round}

pub same_Inv :
    (p : Threads) (e : IntExporter) (log : List (ℕ × TelemetricHdr)) (n : ℕ)
    → Inv p
    → e ≡ p.exporter
    → log ≡ p.accepted
    → Inv (record p { exporter = e; accepted = log; refused = n })
same_Inv p e log n inv same_exporter same_log =
    subst (λ x. Inv (record p { exporter = x; accepted = log; refused = n })) (sym same_exporter)
      (subst (λ l. Inv (record p { accepted = l; refused = n })) (sym same_log)
        (record {
          valid = inv.valid;
          fifo = inv.fifo;
          blocks = inv.blocks;
          addresses = inv.addresses;
        }))

-- The globals when recvfrom has returned.
abbrev pub waited : Arrival → World → World
waited a w = if a.interrupted then setup_stop w else w

module _ (stack : TelemetricHdr) (opt : Options) where
  -- What a round does for the accounts.
  pub record Rounded (a : Arrival) (s s' : System) : Type 0 where
    pub inv : Inv (threads_of s')
    pub after : World
    pub handed :
        let w = waited a s.world in
        let buff = received s.buffer a in
        Handed opt (report_of stack buff opt w) (world_of stack buff w) after
    pub threads : threads_of s' ≡ record (threads_of s) {
      exporter = after.exporter;
      accepted = s.accepted ++ taken_report stack opt (received s.buffer a) (waited a s.world);
      refused = after.pkt_drop;
    }
    pub buffer : s'.buffer ≡ received s.buffer a
    pub pkt_cnt : s'.world.pkt_cnt ≡ s.world.pkt_cnt + 1
    pub counted :
        length s'.accepted + s'.world.pkt_drop
        ≡ length s.accepted + s.world.pkt_drop + (if sampled opt s.world then 1 else 0)
    pub few : s'.world.pkt_drop < s.world.pkt_drop + 2
    pub stop : s'.world.stop ≡ (a.interrupted || s.world.stop)
    pub returned : s'.returned ≡ (if s'.world.stop then some ret_ok else none)

  pub taken-due :
      (buff : Buffer) (w : World) (sent : Bool) (e : IntExporter)
      → sampled opt w ≡ true
      → send_data w.exporter (report_of stack buff opt w) ≡ ok (sent, e)
      → taken_report stack opt buff w
        ≡ (if sent then (e.rr_index, report_of stack buff opt w) ∷ [] else [])
  unfolding taken_report
  taken-due buff w sent e due runs = rw (due, runs, taken_report) refl

  pub taken-skipped :
      (buff : Buffer) (w : World) → sampled opt w ≡ false → taken_report stack opt buff w ≡ []
  unfolding taken_report
  taken-skipped buff w none_due = rw (none_due) refl

  module _ (buff : Buffer) (w v : World) (p : Threads) (inv : Inv p) (at : p.exporter ≡ w.exporter)
      (h : Handed opt (report_of stack buff opt w) (world_of stack buff w) v) where
    answered :
        (sent : Bool)
        → sampled opt w ≡ true
        → send_data w.exporter (report_of stack buff opt w) ≡ ok (sent, v.exporter)
        → State.IsValid v.exporter
        → Sent w.exporter (report_of stack buff opt w) (sent, v.exporter)
        → v.pkt_drop ≡ w.pkt_drop + (if sent then 0 else 1)
        → Inv (record p {
          exporter = v.exporter;
          accepted = p.accepted ++ taken_report stack opt buff w;
          refused = v.pkt_drop;
        })
          × (length (p.accepted ++ taken_report stack opt buff w) + v.pkt_drop
              ≡ length p.accepted + w.pkt_drop + 1)
    answered true due runs valid s drop =
        let stored =
          stored_Inv (report_of stack buff opt w) p inv (report_of-HasAddresses stack buff opt w)
            v.exporter valid
            (subst (λ e. Sent e (report_of stack buff opt w) (true, v.exporter)) (sym at) s) in
        let log = taken-due buff w true v.exporter due runs in
        (
          same_Inv _ v.exporter _ v.pkt_drop stored refl (ap (λ l. p.accepted ++ l) log),
          rw (log) (
              omega (
                arith,
                drop,
                length-snoc p.accepted (v.exporter.rr_index, report_of stack buff opt w),
              )),
        )
    answered false due runs valid (same, full) drop =
        let log = taken-due buff w false v.exporter due runs in
        let kept =
          refused_Inv (report_of stack buff opt w) p inv (report_of-HasAddresses stack buff opt w)
            v.exporter valid (same ∙ ap (λ e. e.ring_buffs) (sym at)) in
        (
          same_Inv _ v.exporter _ v.pkt_drop kept refl
              (ap (λ l. p.accepted ++ l) log ∙ append-nil p.accepted),
          rw (log, append-nil p.accepted) (omega (arith, drop)),
        )

    -- The threads after the report was handed on, and the accounts.
    handed_Inv :
        Inv (record p {
          exporter = v.exporter;
          accepted = p.accepted ++ taken_report stack opt buff w;
          refused = v.pkt_drop;
        })
        × (length (p.accepted ++ taken_report stack opt buff w) + v.pkt_drop
            ≡ length p.accepted + w.pkt_drop + (if sampled opt w then 1 else 0))
    unfolding world_of sampled
    handed_Inv = elim (Bool-cases (sampled opt w)) [
      | inl due ↦
          let (sent, runs, valid, s, drop) = h.due due in
          let (kept, count) = answered sent due runs valid s drop in (kept, rw (due) count)
      | inr skip ↦
          let (same, drop) = h.skipped skip in
          let log = taken-skipped buff w skip in
          (
            same_Inv p v.exporter _ v.pkt_drop inv (same ∙ sym at)
                (ap (λ l. p.accepted ++ l) log ∙ append-nil p.accepted),
            rw (log, append-nil p.accepted, skip) (omega (arith, drop)),
          )
    ]

  pub waited_same :
      (a : Arrival) (w : World)
      → ((waited a w).exporter ≡ w.exporter)
        × ((waited a w).pkt_cnt ≡ w.pkt_cnt)
        × ((waited a w).pkt_drop ≡ w.pkt_drop)
        × ((waited a w).stop ≡ (a.interrupted || w.stop))
  unfolding setup_stop
  waited_same a w = elim (Bool-cases a.interrupted) [
    | inl hit ↦ simp (hit) (refl, refl, refl, refl)
    | inr clear ↦ simp (clear) (refl, refl, refl, refl)
  ]

  -- A round of the loop with a safe packet.
  pub round_lem :
      (a : Arrival) (s : System)
      → Inv (threads_of s)
      → IsSafe opt (received s.buffer a)
      → s.world.pkt_drop + 1 < 2 ^ 64
      → s.world.pkt_cnt + 1 < 2 ^ 64
      → (s' : System) × (round stack opt a s ≡ ok s') × Rounded a s s'
  unfolding round world_of sampled
  round_lem a s inv safe few small =
      let buff = received s.buffer a in
      let w = waited a s.world in
      let (exporter, pkt_cnt, pkt_drop, stop) = waited_same a s.world in
      let (v, runs, h) =
        report_to_influx-Handed opt (report_of stack buff opt w) (world_of stack buff w)
          (omega (arith, pkt_drop)) (subst State.IsValid (sym exporter) inv.valid) safe.rate in
      let processed : process_packet stack buff opt w ≡ ok (ret_ok, v) =
        taken_apart stack buff opt w safe.bytes safe.divides safe.few ∙ rw runs refl in
      let (kept, count) = handed_Inv buff w v (threads_of s) inv (sym exporter) h in
      let due : sampled opt w ≡ sampled opt s.world =
        ap (λ n. sampled opt (record (s.world) { pkt_cnt = n })) pkt_cnt in
      (
        record s {
          world = record v { pkt_cnt = u64 (v.pkt_cnt + 1) };
          buffer = buff;
          returned = if v.stop then some ret_ok else none;
          accepted = s.accepted ++ taken_report stack opt buff w;
        },
        rw processed refl,
        record {
          inv = kept;
          after = v;
          handed = h;
          threads = refl;
          buffer = refl;
          pkt_cnt = omega (arith, h.pkt_cnt, pkt_cnt);
          counted = count ∙ ap₂ (λ n b. length s.accepted + n + (if b then 1 else 0)) pkt_drop due;
          few = omega (arith, h.few, pkt_drop);
          stop = h.stop ∙ stop;
          returned = refl;
        },
      )
