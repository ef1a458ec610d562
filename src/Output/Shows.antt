-- ===== src/Output/Shows.antt =====
-- What one packet adds to the standard output.
use int_platform_dpdk.Base.{
  ℕ, ◌+◌, ◌%◌, ◌≡◌, refl, sym, ap, subst, ◌∙◌, List, [], ◌∷◌, ◌++◌, append-nil, Bool, true, false,
  not, ◌&&◌, ◌==◌, if◌then◌else◌, Bool-cases, inl, inr,
}
use int_platform_dpdk.Outcome.{Outcome, ok, fault, ok-injective, ◌>>=◌}
use int_platform_dpdk.Words.{u64}
use int_platform_dpdk.Types.{Options, TelemetricHdr, ret_ok}
use int_platform_dpdk.Packet.{Buffer}
use int_platform_dpdk.Exporter.{IntExporter, send_data}
use int_platform_dpdk.Collector.Packets.{
  Printed, dropped, telemetric, totals, packet_error, World, checked_mod, count_drop, export_report,
  report_to_influx, process_packet,
}
use int_platform_dpdk.Collector.Packets.Process.{IsSafe, report_of, world_of, taken_apart}
use int_platform_dpdk.Output.Reader.{reports}

pub reports-append : (ps qs : List Printed) → reports (ps ++ qs) ≡ reports ps ++ reports qs
reports-append [] qs = refl
reports-append (telemetric hdr ∷ ps) qs = ap (λ l. hdr ∷ l) (reports-append ps qs)
reports-append (dropped n ∷ ps) qs = reports-append ps qs
reports-append (totals cnt drop ∷ ps) qs = reports-append ps qs
reports-append (packet_error ∷ ps) qs = reports-append ps qs

-- The reports shown and the memory of the flows and the hops, after some code and before.
pub record Shows (more : List TelemetricHdr) (w v : World) : Type 0 where
  pub printed : reports v.printed ≡ reports w.printed ++ more
  pub flow_map : v.flow_map ≡ w.flow_map
  pub prev_timestamps : v.prev_timestamps ≡ w.prev_timestamps

quiet : (w v : World) → w ≡ v → Shows [] w v
quiet w v same = record {
  printed = ap (λ x. reports x.printed) (sym same) ∙ sym (append-nil (reports w.printed));
  flow_map = ap (λ x. x.flow_map) (sym same);
  prev_timestamps = ap (λ x. x.prev_timestamps) (sym same);
}

count_drop-Shows :
    (w : World) (e : IntExporter) → Shows [] w (count_drop (record w { exporter = e }))
unfolding count_drop
count_drop-Shows w e = record {
  printed =
      elim (Bool-cases (u64 (w.pkt_drop + 1) % 1000 == 0 && not (u64 (w.pkt_drop + 1) == 0))) [
        | inl thousand ↦
            rw (thousand) (reports-append w.printed (dropped (u64 (w.pkt_drop + 1)) ∷ []))
        | inr other ↦ rw (other) (sym (append-nil (reports w.printed)))
      ];
  flow_map = refl;
  prev_timestamps = refl;
}

-- The reports, if the option says so.
abbrev pub spoken : Options → List TelemetricHdr → List TelemetricHdr
spoken opt hdrs = if opt.verbose == 0 then [] else hdrs

module _ (opt : Options) (hdr : TelemetricHdr) (w : World) where
  sent-Shows :
      (o : Outcome (Bool × IntExporter)) (v : World)
      → (o >>= λ r.
          let (sent, exporter) = r in
          let w' = record w { exporter = exporter } in ok (if sent then w' else count_drop w'))
        ≡ ok v
      → Shows [] w v
  sent-Shows (fault why) v h = absurd (cc)
  sent-Shows (ok (true, e)) v h = subst (Shows [] w) (ok-injective h) (record {
    printed = sym (append-nil (reports w.printed));
    flow_map = refl;
    prev_timestamps = refl;
  })
  sent-Shows (ok (false, e)) v h = subst (Shows [] w) (ok-injective h) (count_drop-Shows w e)

  phase-Shows :
      (o : Outcome ℕ) (v : World)
      → (o >>= λ phase.
          if phase == 0
          then (send_data w.exporter hdr >>= λ r.
              let (sent, exporter) = r in
              let w' = record w { exporter = exporter } in ok (if sent then w' else count_drop w'))
          else ok w)
        ≡ ok v
      → Shows [] w v
  phase-Shows (fault why) v h = absurd (cc)
  phase-Shows (ok phase) v h = elim (Bool-cases (phase == 0)) [
    | inl due ↦ sent-Shows (send_data w.exporter hdr) v (rw due at h)
    | inr skip ↦ quiet w v (ok-injective (rw skip at h))
  ]

  export_report-Shows : (v : World) → export_report opt hdr w ≡ ok v → Shows [] w v
  unfolding export_report
  export_report-Shows v h = elim (Bool-cases (opt.host_valid == 0)) [
    | inl off ↦ quiet w v (ok-injective (rw off at h))
    | inr on ↦ phase-Shows (checked_mod w.pkt_cnt opt.smpl_rate) v (rw on at h)
  ]

  told-Shows :
      (w' : World)
      → Shows [] w w'
      → Shows (hdr ∷ []) w (record w' { printed = w'.printed ++ (telemetric hdr ∷ []) })
  told-Shows w' s = record {
    printed =
        reports-append w'.printed (telemetric hdr ∷ [])
        ∙ ap (λ l. l ++ (hdr ∷ [])) (s.printed ∙ append-nil (reports w.printed));
    flow_map = s.flow_map;
    prev_timestamps = s.prev_timestamps;
  }

  then-Shows :
      (o : Outcome World) (v : World)
      → export_report opt hdr w ≡ o
      → (o >>= λ w'. ok (
          if opt.verbose == 0
          then w'
          else record w' { printed = w'.printed ++ (telemetric hdr ∷ []) }))
        ≡ ok v
      → Shows (spoken opt (hdr ∷ [])) w v
  then-Shows (fault why) v runs h = absurd (cc)
  then-Shows (ok w') v runs h = elim (Bool-cases (opt.verbose == 0)) [
    | inl silent ↦
        rw (silent)
          (subst (Shows [] w) (ok-injective (rw silent at h)) (export_report-Shows w' runs))
    | inr loud ↦ rw (loud) (
        subst (Shows (hdr ∷ []) w) (ok-injective (rw loud at h))
          (told-Shows w' (export_report-Shows w' runs)))
  ]

  report_to_influx-Shows :
      (v : World) → report_to_influx opt hdr w ≡ ok v → Shows (spoken opt (hdr ∷ [])) w v
  unfolding report_to_influx
  report_to_influx-Shows v h = then-Shows (export_report opt hdr w) v refl h

module _ (stack : TelemetricHdr) (opt : Options) where
  last_of :
      (o : Outcome World) (v : World)
      → ◌>>=◌ {Out = ℕ × World} o (λ w'. ok (ret_ok, w')) ≡ ok (ret_ok, v)
      → o ≡ ok v
  last_of (fault why) v h = absurd (cc)
  last_of (ok w') v h = ap (λ r. ok (r.1)) (ok-injective h)

  pub process_packet-Shows :
      (buff : Buffer) (w v : World)
      → IsSafe opt buff
      → process_packet stack buff opt w ≡ ok (ret_ok, v)
      → Shows (spoken opt (report_of stack buff opt w ∷ [])) (world_of stack buff w) v
  process_packet-Shows buff w v safe runs =
      report_to_influx-Shows opt (report_of stack buff opt w) (world_of stack buff w) v
        (last_of _ v (sym (taken_apart stack buff opt w safe.bytes safe.divides safe.few) ∙ runs))
