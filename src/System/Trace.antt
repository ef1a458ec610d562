-- ===== src/System/Trace.antt =====
-- The turns of Pipeline that the events of the running program come to.
use int_platform_dpdk.Base.{
  ℕ, ◌+◌, ◌≡◌, sym, ap, ap₂, ◌∙◌, List, [], ◌∷◌, ◌++◌, append-nil, Bool, true, false, none, some,
  if◌then◌else◌, arith, Bool-cases, inl, inr,
}
use int_platform_dpdk.Outcome.{ok, fault, ◌>>=◌}
use int_platform_dpdk.Types.{Options, TelemetricHdr}
use int_platform_dpdk.Packet.{Buffer}
use int_platform_dpdk.Exporter.{IntExporter, send_data}
use int_platform_dpdk.Exporter.Start.{SenderKind}
use int_platform_dpdk.Sender.{Transport}
use int_platform_dpdk.Collector.Packets.{World, received}
use int_platform_dpdk.Collector.Packets.Once.{sampled}
use int_platform_dpdk.Collector.Packets.Process.{report_of, world_of}
use int_platform_dpdk.Collector.Packets.Handed.{Handed}
use int_platform_dpdk.Pipeline.{Threads, Turn, exported, polled, turn, turns}
use int_platform_dpdk.System.{Event, arrived, poll, System, taken_report, event}
use int_platform_dpdk.System.Steps.{waited, taken-due, taken-skipped}

module _ (stack : TelemetricHdr) (opt : Options) where
  -- A call of sendData if the packet's report is due.
  unfoldable pub calls : Buffer → World → List Turn
  calls buff w = if sampled opt w then exported (report_of stack buff opt w) ∷ [] else []

  -- A packet that is received makes at most one call; a poll is a poll.
  unfoldable pub turns_for : Event → System → List Turn
  unfolding calls
  turns_for (arrived a) s = elim (s.returned) [
    | some ret ↦ []
    | none ↦ calls (received s.buffer a) (waited a s.world)
  ]
  turns_for (poll i) s = polled i ∷ []

  module _ (kind : SenderKind) (transports : ℕ → Transport) (before : TelemetricHdr) where
    unfoldable pub trace : List Event → System → List Turn
    unfolding turns_for
    trace [] s = []
    trace (x ∷ xs) s = turns_for x s ++ (elim (event stack opt kind transports before x s) [
      | ok s' ↦ trace xs s'
      | fault why ↦ []
    ])

    pub threads_ext :
        (p : Threads) (e : IntExporter) {log log' : List (ℕ × TelemetricHdr)} {n n' : ℕ}
        → log ≡ log'
        → n ≡ n'
        → Path Threads
            (record p { exporter = e; accepted = log; refused = n })
            (record p { exporter = e; accepted = log'; refused = n' })
    threads_ext p e same_log same_count =
        ap₂ (λ l m. record p { exporter = e; accepted = l; refused = m }) same_log same_count

    module _ (buff : Buffer) (w v : World) (p : Threads) (at : p.exporter ≡ w.exporter)
        (count : p.refused ≡ w.pkt_drop)
        (h : Handed opt (report_of stack buff opt w) (world_of stack buff w) v) where
      called :
          (sent : Bool)
          → sampled opt w ≡ true
          → send_data w.exporter (report_of stack buff opt w) ≡ ok (sent, v.exporter)
          → v.pkt_drop ≡ w.pkt_drop + (if sent then 0 else 1)
          → turn opt kind transports before (exported (report_of stack buff opt w)) p
            ≡ ok (record p {
              exporter = v.exporter;
              accepted = p.accepted ++ taken_report stack opt buff w;
              refused = v.pkt_drop;
            })
      unfolding turn
      called true due runs drop =
          let here : send_data p.exporter (report_of stack buff opt w) ≡ ok (true, v.exporter) =
            ap (λ e. send_data e (report_of stack buff opt w)) at ∙ runs in
          let log = taken-due stack opt buff w true v.exporter due runs in
          rw (here) (
            ap ok (
              threads_ext p v.exporter (ap (λ l. p.accepted ++ l) (sym log))
                (omega (arith, count, drop))))
      called false due runs drop =
          let here : send_data p.exporter (report_of stack buff opt w) ≡ ok (false, v.exporter) =
            ap (λ e. send_data e (report_of stack buff opt w)) at ∙ runs in
          let log = taken-due stack opt buff w false v.exporter due runs in
          rw (here) (
            ap ok (
              threads_ext p v.exporter (sym (ap (λ l. p.accepted ++ l) log ∙ append-nil p.accepted))
                (omega (arith, count, drop))))

      -- What the packet does to the threads.
      pub calls_lem :
          turns opt kind transports before (calls buff w) p
          ≡ ok (record p {
            exporter = v.exporter;
            accepted = p.accepted ++ taken_report stack opt buff w;
            refused = v.pkt_drop;
          })
      unfolding calls turns world_of sampled
      calls_lem = elim (Bool-cases (sampled opt w)) [
        | inl due ↦
            let (sent, runs, valid, s, drop) = h.due due in
            rw (due)
              (ap (λ o. o >>= turns opt kind transports before []) (called sent due runs drop))
        | inr skip ↦
            let (same, drop) = h.skipped skip in
            let log = taken-skipped stack opt buff w skip in
            rw (skip) (
              ap ok (
                ap (λ e. record p { exporter = e }) (at ∙ sym same)
                ∙ threads_ext p v.exporter
                    (sym (ap (λ l. p.accepted ++ l) log ∙ append-nil p.accepted))
                    (count ∙ sym drop)))
      ]
