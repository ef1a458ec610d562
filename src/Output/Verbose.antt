-- ===== src/Output/Verbose.antt =====
-- What the verbose mode shows of the packets.
use int_platform_dpdk.Base.{
  ℕ, ◌+◌, ◌^◌, ◌<◌, ◌≡◌, refl, sym, ap, ap₂, subst, ◌∙◌, List, [], ◌∷◌, ◌++◌, append_assoc,
  append-nil, map, length, true, false, none, some, ◌==◌, if◌then◌else◌, arith, Bool-cases, inl,
  inr,
}
use int_platform_dpdk.Outcome.{ok}
use int_platform_dpdk.Words.{u64}
use int_platform_dpdk.Text.Pieces.{lacks}
use int_platform_dpdk.Report.Points.{address_clean}
use int_platform_dpdk.Collector.Packets.Readable.{report_of_fits}
use int_platform_dpdk.Types.{Options, TelemetricHdr, ret_ok}
use int_platform_dpdk.Packet.{Buffer}
use int_platform_dpdk.Exporter.{IntExporter}
use int_platform_dpdk.Exporter.State
use int_platform_dpdk.Collector.Header.{FlowMap}
use int_platform_dpdk.Collector.Nodes.{Timestamps}
use int_platform_dpdk.Collector.Packets.{
  totals, World, setup_stop, Arrival, received, initial, after_wait, loop_proccess,
}
use int_platform_dpdk.Collector.Packets.Process.{report_of, world_of}
use int_platform_dpdk.Collector.Packets.Loop.{
  AllSafe, KeepValid, signalled, one_packet, pass_on, stopped,
}
use int_platform_dpdk.Output.{output}
use int_platform_dpdk.Output.Reader.{Column, shown, read_column, reports, AllLines}
use int_platform_dpdk.Output.Columns.{read_column-output}
use int_platform_dpdk.Output.Shows.{reports-append, Shows, spoken, process_packet-Shows}

module _ (stack : TelemetricHdr) (opt : Options) where
  -- The reports of the packets up to the signal, from the memory of the flows and the hops on. The
  -- globals `base` are not looked at.
  unfoldable pub reports_of :
      World → List Arrival → Buffer → FlowMap → Timestamps → List TelemetricHdr
  reports_of base [] buff flows times = []
  reports_of base (a ∷ arrivals) buff flows times =
      let w = record base { flow_map = flows; prev_timestamps = times } in
      let buff' = received buff a in
      let next = world_of stack buff' w in
      let rest = reports_of base arrivals buff' next.flow_map next.prev_timestamps in
      report_of stack buff' opt w ∷ (if a.interrupted then [] else rest)

  spoken-cons :
      (t : TelemetricHdr) (ts : List TelemetricHdr)
      → spoken opt (t ∷ []) ++ spoken opt ts ≡ spoken opt (t ∷ ts)
  spoken-cons t ts = elim (Bool-cases (opt.verbose == 0)) [
    | inl silent ↦ rw (silent) refl
    | inr loud ↦ rw (loud) refl
  ]

  module _ (senders : ℕ → IntExporter → IntExporter) (kept : KeepValid senders) (base : World) where
    -- What a run shows.
    record Shown (arrivals : List Arrival) (buff : Buffer) (w : World) : Type 0 where
      final : World
      runs :
          loop_proccess senders stack opt arrivals buff w
          ≡ ok (if signalled arrivals then some ret_ok else none, final)
      printed :
          reports final.printed
          ≡ reports w.printed
            ++ spoken opt (reports_of base arrivals buff w.flow_map w.prev_timestamps)

    -- The first packet's report, and those of the rest.
    joined :
        (a : Arrival) (w v : World) (buff : Buffer) (rest : List TelemetricHdr)
        → Shows
            (spoken opt (report_of stack (received buff a) opt w ∷ []))
            (world_of stack (received buff a) w)
            v
        → reports v.printed ++ spoken opt rest
          ≡ reports w.printed ++ spoken opt (report_of stack (received buff a) opt w ∷ rest)
    unfolding world_of
    joined a w v buff rest s =
        let t = report_of stack (received buff a) opt w in
        ap (λ l. l ++ spoken opt rest) s.printed
        ∙ append_assoc (reports w.printed) (spoken opt (t ∷ [])) (spoken opt rest)
        ∙ ap (λ l. reports w.printed ++ l) (spoken-cons t rest)

    spoken-nil : (w : World) → reports w.printed ≡ reports w.printed ++ spoken opt []
    spoken-nil w = elim (Bool-cases (opt.verbose == 0)) [
      | inl silent ↦ rw (silent) (sym (append-nil (reports w.printed)))
      | inr loud ↦ rw (loud) (sym (append-nil (reports w.printed)))
    ]

    -- The signal shows the counts, and no report.
    signal_same : (w : World) → reports (setup_stop w).printed ≡ reports w.printed
    unfolding setup_stop
    signal_same w =
        reports-append w.printed (totals w.pkt_cnt w.pkt_drop ∷ []) ∙ append-nil (reports w.printed)

    -- The reports after the first.
    tail_of : Arrival → List Arrival → Buffer → World → List TelemetricHdr
    tail_of a arrivals buff w =
        let next = world_of stack (received buff a) w in
        reports_of base arrivals (received buff a) next.flow_map next.prev_timestamps

    run-Shown :
        (arrivals : List Arrival) (buff : Buffer) (w : World)
        → AllSafe opt buff arrivals
        → State.IsValid w.exporter
        → w.pkt_drop + length arrivals < 2 ^ 64
        → w.pkt_cnt + length arrivals < 2 ^ 64
        → w.stop ≡ false
        → Shown arrivals buff w
    unfolding signalled loop_proccess after_wait setup_stop reports_of report_of world_of tail_of
    run-Shown [] buff w safe valid few small going = record {
      final = w;
      runs = simp (going);
      printed = spoken-nil w;
    }
    run-Shown (a ∷ arrivals) buff w (safe, rest) valid few small going =
        elim (Bool-cases a.interrupted) [
          | inl hit ↦
              let (v, runs, once, stop) =
                one_packet stack opt (received buff a) (setup_stop (after_wait senders w)) safe
                  (kept w.pkt_cnt w.exporter valid) (omega arith) (omega arith) in
              let s =
                process_packet-Shows stack opt (received buff a) (setup_stop (after_wait senders w))
                  v safe runs in
              let v' : World = record v { pkt_cnt = u64 (v.pkt_cnt + 1) } in
              record {
                final = v';
                runs =
                    pass_on stack opt senders a arrivals buff w v true going hit runs
                    ∙ stopped stack opt senders arrivals (received buff a) v' stop
                    ∙ ap
                        (λ b. ok (
                          if (if b then true else signalled arrivals) then some ret_ok else none,
                          v',
                        ))
                        (sym hit);
                printed =
                    s.printed
                    ∙ ap (λ l. l ++ spoken opt (report_of stack (received buff a) opt w ∷ []))
                        (signal_same (after_wait senders w))
                    ∙ ap
                        (λ b.
                          reports w.printed
                          ++ spoken opt (
                              report_of stack (received buff a) opt w
                              ∷ (if b then [] else tail_of a arrivals buff w)))
                        (sym hit);
              }
          | inr clear ↦
              let (v, runs, once, stop) =
                one_packet stack opt (received buff a) (after_wait senders w) safe
                  (kept w.pkt_cnt w.exporter valid) (omega arith) (omega arith) in
              let s =
                process_packet-Shows stack opt (received buff a) (after_wait senders w) v safe
                  runs in
              let v' : World = record v { pkt_cnt = u64 (v.pkt_cnt + 1) } in
              let more =
                run-Shown arrivals (received buff a) v' rest once.valid
                  (omega (arith, once.few_drops, few)) (omega (arith, once.pkt_cnt, small))
                  (stop ∙ going) in
              record {
                final = more.final;
                runs =
                    pass_on stack opt senders a arrivals buff w v false going clear runs
                    ∙ more.runs
                    ∙ ap
                        (λ b. ok (
                          if (if b then true else signalled arrivals) then some ret_ok else none,
                          more.final,
                        ))
                        (sym clear);
                printed =
                    more.printed
                    ∙ ap₂
                        (λ f t.
                          reports v.printed
                          ++ spoken opt (reports_of base arrivals (received buff a) f t))
                        s.flow_map s.prev_timestamps
                    ∙ joined a (after_wait senders w) v buff (tail_of a arrivals buff w) s
                    ∙ ap
                        (λ b.
                          reports w.printed
                          ++ spoken opt (
                              report_of stack (received buff a) opt w
                              ∷ (if b then [] else tail_of a arrivals buff w)))
                        (sym clear);
              }
        ]

address_line :
    (t : TelemetricHdr)
    → address_clean t ≡ true
    → (lacks b'\n' t.src_ip ≡ true) × (lacks b'\n' t.dst_ip ≡ true)
unfolding address_clean
address_line t h = (ground (arith, h), ground (arith, h))

module _ (stack : TelemetricHdr) (opt : Options) (base : World) where
  reports_of-AllLines :
      (arrivals : List Arrival) (buff : Buffer) (flows : FlowMap) (times : Timestamps)
      → AllSafe opt buff arrivals
      → AllLines (reports_of stack opt base arrivals buff flows times)
  unfolding reports_of received
  reports_of-AllLines [] buff flows times safe = tt
  reports_of-AllLines (a ∷ arrivals) buff flows times (safe, rest) =
      let w = record base { flow_map = flows; prev_timestamps = times } in
      let (src, dst) =
        address_line (report_of stack (received buff a) opt w)
          (report_of_fits stack (received buff a) opt w safe.bytes).addresses in
      let more =
        reports_of-AllLines arrivals (received buff a) (world_of stack (received buff a) w).flow_map
          (world_of stack (received buff a) w).prev_timestamps rest in
      elim (Bool-cases a.interrupted) [
        | inl hit ↦ rw (hit) (src, dst, tt)
        | inr clear ↦ rw (clear) (src, dst, more)
      ]

spoken-AllLines :
    (opt : Options) (hdrs : List TelemetricHdr) → AllLines hdrs → AllLines (spoken opt hdrs)
spoken-AllLines opt hdrs fit = elim (Bool-cases (opt.verbose == 0)) [
  | inl silent ↦ rw (silent) tt
  | inr loud ↦ rw (loud) fit
]

-- From a program that has just started, with a valid exporter, over any arrivals with fewer than 2 ^ 64
-- packets that are all safe, and whatever the senders do to the exporter during the waits, if it stays
-- valid: loop_proccess ends without a fault, and in the verbose mode it shows on the
-- standard output one report for each packet up to the signal, in order, whether it was due for the
-- host, taken or dropped, and otherwise none. The reports depend on the packets alone: on their
-- bytes, and on those of the packets before them through the memory of the flows and the hops. And
-- whatever else is printed between them, the values that stand behind a label of print_telemetric
-- are, in order, those of these reports.
pub loop_proccess_shows :
    (senders : ℕ → IntExporter → IntExporter) (stack : TelemetricHdr) (opt : Options)
    (e : IntExporter) (arrivals : List Arrival) (buff : Buffer)
    → KeepValid senders
    → AllSafe opt buff arrivals
    → State.IsValid e
    → length arrivals < 2 ^ 64
    → let hdrs = reports_of stack opt (initial e) arrivals buff [] (λ i. 0) in
      (w' : World) × (loop_proccess senders stack opt arrivals buff (initial e)
        ≡ ok (if signalled arrivals then some ret_ok else none, w'))
      × (reports w'.printed ≡ spoken opt hdrs)
      × ((c : Column) → read_column c (output w'.printed) ≡ map (shown c) (spoken opt hdrs))
loop_proccess_shows senders stack opt e arrivals buff kept safe valid few =
    let r =
      run-Shown stack opt senders kept (initial e) arrivals buff (initial e) safe valid
        (omega arith) (omega arith) refl in
    let hdrs = reports_of stack opt (initial e) arrivals buff [] (λ i. 0) in
    let fit : AllLines (reports r.final.printed) = subst AllLines (sym r.printed) (
      spoken-AllLines opt hdrs
        (reports_of-AllLines stack opt (initial e) arrivals buff [] (λ i. 0) safe)) in
    (
      r.final,
      r.runs,
      r.printed,
      λ c. read_column-output c r.final.printed fit ∙ ap (map (shown c)) r.printed,
    )
